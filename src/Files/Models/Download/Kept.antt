-- ===== src/Files/Models/Download/Kept.antt =====
-- app/admin/models.py, `_download`: what it leaves on the disk.
use channel_agent.Prelude.{
  ℕ, ◌≡◌, refl, sym, ◌∙◌, ◌⊎◌, inl, inr, ◌≤◌, ◌+◌, ◌&&◌, not, Bool, true, false, Option, none, some,
  List, [], ◌∷◌, ◌++◌, append-nil, append_assoc, length, length-append, ◌==◌, ltb, Codes,
  eq_of_same_codes, is_nil, Bool-cases, Option-cases, if_both, arith,
}
use channel_agent.Files.Models.{Bytes, Slot, Installed, margin, joined}
use channel_agent.Files.Models.Fetch.{Response, Seen, Fetched, answered, not_fetched}
use channel_agent.Files.Models.Download.{
  Pulled, pulled, stopped, Limits, Hashing, expected_hash, size_of, begins, is_sha256, normal,
  total_of, receive, opened, matches, installed, finished, with_total, started, with_answer,
  download,
}

-- What the loop leaves: a file under the limit, and all of it unless the limit was passed.
abbrev IsReceived : ℕ → Bytes → List Bytes → Bool × ℕ × Bytes → Type 0
IsReceived limit file chunks (true, received, kept) = length kept ≤ limit
IsReceived limit file chunks (false, received, kept) =
    (length kept ≤ limit) × (received ≡ length kept) × (kept ≡ file ++ joined chunks)

IsReceived-append :
    (limit : ℕ) (file c : Bytes) (cs : List Bytes) (result : Bool × ℕ × Bytes)
    → IsReceived limit (file ++ c) cs result
    → IsReceived limit file (c ∷ cs) result
IsReceived-append limit file c cs (true, received, kept) h = h
IsReceived-append limit file c cs (false, received, kept) h =
    (h.0, h.1, h.2 ∙ append_assoc file c (joined cs))

receive-IsReceived :
    (limit received : ℕ) (file : Bytes) (chunks : List Bytes)
    → received ≡ length file
    → received ≤ limit
    → IsReceived limit file chunks (receive limit received file chunks)
unfolding receive
receive-IsReceived limit received file [] h below =
    (omega (arith, h, below), h, sym (append-nil file))
receive-IsReceived limit received file (c ∷ cs) h below =
    let longer = length-append file c in
    if_both (IsReceived limit file (c ∷ cs)) (ltb limit (received + length c))
      (λ over. omega (arith, h, below))
      (λ under.
        IsReceived-append limit file c cs (receive limit (received + length c) (file ++ c) cs) (
          receive-IsReceived limit (received + length c) (file ++ c) cs (omega (arith, h, longer))
            (ground (arith, under))))

-- The unfinished file is under the limit.
abbrev pub HasPartUnder : ℕ → Slot → Type 0
HasPartUnder limit slot = size_of slot.part ≤ limit

abbrev IsExpected : Option Codes → Codes → Type 0
IsExpected none digest = Unit {0}
IsExpected (some expected) digest = digest ≡ expected

module _ (lib : Hashing) (limits : Limits) (wanted : Option Codes) where
  abbrev IsContent : Installed → Slot → Option Bytes → Type 0
  IsContent i slot' none = ⊥
  IsContent i slot' (some content) =
      (i.size ≡ length content)
      × (i.size ≤ limits.max_bytes)
      × (i.digest ≡ lib.sha256 content)
      × IsExpected (expected_hash lib.lower (wanted ∷ [])) i.digest

  IsExpected-matches :
      (given etag : Option Codes) (digest : Codes)
      → matches lib limits given digest (expected_hash lib.lower (given ∷ etag ∷ [])) ≡ true
      → IsExpected (expected_hash lib.lower (given ∷ [])) digest
  unfolding expected_hash
  IsExpected-matches none etag digest h = _
  IsExpected-matches (some s) etag digest h =
      elim (Bool-cases (not (is_nil s) && is_sha256 (normal lib.lower s))) [
        | inl usable ↦
            rw usable (eq_of_same_codes digest (normal lib.lower s) (ground (arith, h, usable)))
        | inr other ↦ rw other _
      ]

  -- What a pull may leave in the directory.
  abbrev pub IsKept : Slot → Pulled × Slot → Type 0
  IsKept slot (stopped e, slot') =
      HasPartUnder limits.max_bytes slot'
      × (slot'.dest ≡ slot.dest)
      × (slot'.sidecar ≡ slot.sidecar)
  IsKept slot (pulled i verified, slot') =
      (slot'.part ≡ none) × (slot'.sidecar ≡ some i.digest) × IsContent i slot' slot'.dest

  installed-IsKept :
      (slot : Slot) (etag : Option Codes) (received : ℕ) (file : Bytes)
      → received ≡ length file
      → received ≤ limits.max_bytes
      → IsKept slot (
          installed lib limits wanted slot
            (expected_hash lib.lower (wanted ∷ etag ∷ []))
            received
            file)
  installed-IsKept slot etag received file h below =
      let expected = expected_hash lib.lower (wanted ∷ etag ∷ []) in
      if_both (IsKept slot) (not (matches lib limits wanted (lib.sha256 file) expected))
        (λ wrong. (omega arith, refl, refl))
        (λ right. (
          refl,
          refl,
          (
            h,
            below,
            refl,
            IsExpected-matches wanted etag (lib.sha256 file) (ground (arith, right)),
          ),
        ))

  finished-IsKept :
      (slot : Slot) (r : Response) (seen : Seen) (total : ℕ) (file : Bytes)
      (result : Bool × ℕ × Bytes)
      → IsReceived limits.max_bytes file r.chunks result
      → IsKept slot (finished lib limits wanted slot r seen total result)
  finished-IsKept slot r seen total file (true, received, kept) h = (omega arith, refl, refl)
  finished-IsKept slot r seen total file (false, received, kept) h =
      if_both (IsKept slot) r.interrupted (λ cut. (h.0, refl, refl))
        (λ whole.
          if_both (IsKept slot) (not (total == 0) && not (received == total))
            (λ short. (h.0, refl, refl))
            (λ all. installed-IsKept slot seen.etag received kept (h.1) (omega (arith, h.0, h.1))))

  begins_lem :
      (n offset : ℕ) (r : Response) → some offset ≡ begins n r → (offset ≡ 0) ⊎ (offset ≡ n)
  begins_lem n offset r h = elim (Option-cases r.continues) [
    | inl absent ↦ ground (arith, absent, h)
    | inr range ↦ ground (arith, range.1, h)
  ]

  -- The file is opened where the answer makes it start.
  opened-size :
      (part : Option Bytes) (offset : ℕ)
      → (offset ≡ 0) ⊎ (offset ≡ size_of part)
      → (offset ≡ length (opened offset part)) × (offset ≤ size_of part)
  opened-size none offset h = (ground (arith, h), ground (arith, h))
  opened-size (some content) offset h = (ground (arith, h), ground (arith, h))

  with_total-IsKept :
      (slot : Slot) (r : Response) (seen : Seen) (offset : ℕ) (o : Option ℕ)
      → some offset ≡ begins (size_of slot.part) r
      → HasPartUnder limits.max_bytes slot
      → IsKept slot (with_total lib limits wanted slot r seen offset o)
  with_total-IsKept slot r seen offset none h under = (under, refl, refl)
  with_total-IsKept slot r seen offset (some total) h under =
      if_both (IsKept slot) (not (total == 0) && ltb limits.max_bytes total)
        (λ large. (under, refl, refl))
        (λ small.
          if_both (IsKept slot) (not (total == 0) && ltb (limits.free + offset) (total + margin))
            (λ full. (under, refl, refl))
            (λ room.
              let file = opened offset slot.part in
              let size = opened-size slot.part offset (begins_lem (size_of slot.part) offset r h) in
              finished-IsKept slot r seen total file (receive limits.max_bytes offset file r.chunks)
                (receive-IsReceived limits.max_bytes offset file r.chunks size.0
                  (omega (arith, size.1, under)))))

  started-IsKept :
      (slot : Slot) (r : Response) (seen : Seen) (o : Option ℕ)
      → o ≡ begins (size_of slot.part) r
      → HasPartUnder limits.max_bytes slot
      → IsKept slot (started lib limits wanted slot r seen o)
  started-IsKept slot r seen none h under = (under, refl, refl)
  started-IsKept slot r seen (some offset) h under =
      with_total-IsKept slot r seen offset (total_of r seen) h under

  with_answer-IsKept :
      (slot : Slot) (f : Fetched)
      → HasPartUnder limits.max_bytes slot
      → IsKept slot (with_answer lib limits wanted slot f)
  with_answer-IsKept slot (not_fetched e) under = (under, refl, refl)
  with_answer-IsKept slot (answered r seen) under =
      started-IsKept slot r seen (begins (size_of slot.part) r) refl under

  -- However a pull ends, an unfinished file that was within the size limit stays within it. A pull
  -- that stops leaves the model and its recorded hash as they were. One that ends well leaves a
  -- model within the limit, with its size and hash as reported and recorded, no unfinished file,
  -- and the hash that was asked for, if that was one.
  pub download-IsKept :
      (fetch : ℕ → Fetched) (slot : Slot)
      → HasPartUnder limits.max_bytes slot
      → IsKept slot (download lib limits wanted fetch slot)
  unfolding download
  download-IsKept fetch slot under = with_answer-IsKept slot (fetch (size_of slot.part)) under

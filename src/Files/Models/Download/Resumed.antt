-- ===== src/Files/Models/Download/Resumed.antt =====
-- app/admin/models.py, `_download`: a pull that is cut off, and the same pull again.
use channel_agent.Prelude.{
  ℕ, ◌≡◌, refl, ap, ◌∙◌, ◌≤◌, ◌+◌, ◌&&◌, not, true, false, Option, none, some, List, [], ◌∷◌, ◌++◌,
  append-nil, append_assoc, length, length-append, ◌==◌, ==-refl, ltb, Codes, arith,
}
use channel_agent.Files.Models.{Bytes, Slot, is_some, margin, put_in_place, joined}
use channel_agent.Files.Models.Fetch.{Response, Seen, bytes, answered}
use channel_agent.Files.Models.Download.{
  pulled, stopped, interrupted, Limits, Hashing, expected_hash, receive, matches, opened, download,
}

-- The file that two series of chunks make.
abbrev pub whole : List Bytes → List Bytes → Bytes
whole xs ys = joined xs ++ joined ys

+_nil : (n : ℕ) → n ≡ n + 0
+_nil n = omega arith

-- Under the limit the loop writes every chunk.
receive-all :
    (limit received : ℕ) (file : Bytes) (chunks : List Bytes)
    → received + length (joined chunks) ≤ limit
    → receive limit received file chunks
      ≡ (false, received + length (joined chunks), file ++ joined chunks)
unfolding receive
receive-all limit received file [] h =
    ap (λ (r : ℕ × Bytes). (false, r.0, r.1)) (cc (+_nil received, append-nil file))
receive-all limit received file (c ∷ cs) h =
    let sizes = length-append c (joined cs) in
    let count : received + length c + length (joined cs) ≡ received + length (c ++ joined cs) =
      omega (arith, sizes) in
    let small : ltb limit (received + length c) ≡ false = ground (arith, h, sizes) in
    let rest = receive-all limit (received + length c) (file ++ c) cs (omega (arith, h, sizes)) in
    rw small (rest ∙ cc (count, append_assoc file c (joined cs)))

-- The answer to a first request, cut off after some chunks.
abbrev pub cut_answer : ℕ → List Bytes → Response
cut_answer total chunks = record {
  status = 200;
  location = none;
  continues = none;
  content_length = some (bytes total);
  linked_etag = none;
  linked_size = none;
  chunks = chunks;
  interrupted = true;
}

-- The answer to a request that starts at a byte.
abbrev pub rest_answer : ℕ → ℕ → List Bytes → Response
rest_answer start total chunks = record {
  status = 206;
  location = none;
  continues = some (start, total);
  content_length = none;
  linked_etag = none;
  linked_size = none;
  chunks = chunks;
  interrupted = false;
}

opened-own : (kept : Bytes) → opened (length kept) (some kept) ≡ kept
opened-own [] = refl
opened-own (b ∷ bs) = ground arith

module _ (lib : Hashing) (limits : Limits) (wanted : Option Codes) (seen : Seen) where
  download-cut :
      (total : ℕ) (xs : List Bytes) (slot : Slot)
      → slot.part ≡ none
      → length (joined xs) ≤ total
      → total ≤ limits.max_bytes
      → total + margin ≤ limits.free
      → download lib limits wanted (λ start. answered (cut_answer total xs) seen) slot
        ≡ (stopped interrupted, record slot { part = some (joined xs) })
  unfolding download
  download-cut total xs slot empty below max free =
      let small : (not (total == 0) && ltb limits.max_bytes total) ≡ false = ground (arith, max) in
      let room : (not (total == 0) && ltb (limits.free + 0) (total + margin)) ≡ false =
        ground (arith, free) in
      rw (empty, small, room, receive-all limits.max_bytes 0 [] xs (omega (arith, below, max))) refl

  download-rest :
      (ys : List Bytes) (kept : Bytes) (slot : Slot)
      → slot.part ≡ some kept
      → length (kept ++ joined ys) ≤ limits.max_bytes
      → length (kept ++ joined ys) + margin ≤ limits.free
      → matches lib limits wanted
          (lib.sha256 (kept ++ joined ys))
          (expected_hash lib.lower (wanted ∷ seen.etag ∷ []))
        ≡ true
      → download lib limits wanted
          (λ start. answered (rest_answer start (length (kept ++ joined ys)) ys) seen)
          slot
        ≡ (
          pulled
              (record {
                size = length (kept ++ joined ys);
                digest = lib.sha256 (kept ++ joined ys);
              })
              (is_some (expected_hash lib.lower (wanted ∷ seen.etag ∷ []))),
          put_in_place (kept ++ joined ys) (lib.sha256 (kept ++ joined ys)) slot,
        )
  unfolding download
  download-rest ys kept slot part max free right =
      let total = length (kept ++ joined ys) in
      let sizes = length-append kept (joined ys) in
      let small : (not (total == 0) && ltb limits.max_bytes total) ≡ false = ground (arith, max) in
      let room : (not (total == 0) && ltb (limits.free + length kept) (total + margin)) ≡ false =
        ground (arith, free) in
      let full : not (total == 0) && not (length kept + length (joined ys) == total) ≡ false =
        ground (arith, sizes) in
      rw
        (
          part,
          ==-refl (length kept),
          small,
          room,
          opened-own kept,
          receive-all limits.max_bytes (length kept) kept ys (omega (arith, sizes, max)),
          full,
          right,
        )
        (rw sizes refl)

  -- A first pull that was cut off, and then the same pull again, answered from where it stopped:
  -- the model is the whole file, if it is within the limit, there is room for it, and its hash is
  -- the expected one, if one is expected.
  pub download-resumed :
      (xs ys : List Bytes) (slot : Slot)
      → slot.part ≡ none
      → length (whole xs ys) ≤ limits.max_bytes
      → length (whole xs ys) + margin ≤ limits.free
      → matches lib limits wanted
          (lib.sha256 (whole xs ys))
          (expected_hash lib.lower (wanted ∷ seen.etag ∷ []))
        ≡ true
      → download lib limits wanted
          (λ start. answered (rest_answer start (length (whole xs ys)) ys) seen)
          (download lib limits wanted
            (λ start. answered (cut_answer (length (whole xs ys)) xs) seen)
            slot).1
        ≡ (
          pulled
              (record { size = length (whole xs ys); digest = lib.sha256 (whole xs ys) })
              (is_some (expected_hash lib.lower (wanted ∷ seen.etag ∷ []))),
          put_in_place (whole xs ys) (lib.sha256 (whole xs ys)) slot,
        )
  download-resumed xs ys slot empty max free right =
      let kept = joined xs in
      let total = length (whole xs ys) in
      let sizes = length-append kept (joined ys) in
      let cut = download-cut total xs slot empty (omega (arith, sizes)) max free in
      rw cut (download-rest ys kept (record slot { part = some kept }) refl max free right)

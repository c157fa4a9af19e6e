-- ===== src/Config/EnvFile/Lines.antt =====
-- app/settings_rules.py: the lines that are written to .env are the lines that are read back.
use channel_agent.Prelude.{
  ℕ, ◌≡◌, refl, ap, ◌∙◌, inl, inr, ◌&&◌, ◌||◌, not, Bool, true, false, List, [], ◌∷◌, ◌++◌, any,
  all, ◌==◌, Codes, is_nil, starts_with, push_first, Bool-cases, arith, any-append, append-nil,
}
use channel_agent.Config.EnvFile.{
  decode_newlines, split_lines, joined, read_lines, ends_line, replace_line, append_line,
}

abbrev is_newline : ℕ → Bool
is_newline c = c == 10

abbrev pub is_return : ℕ → Bool
is_return c = c == 13

-- One "\n", at the end.
abbrev pub is_full : Codes → Bool
is_full [] = false
is_full (c ∷ []) = c == 10
is_full (c ∷ d ∷ s) = not (c == 10) && is_full (d ∷ s)

-- The last line of a text may lack its "\n".
abbrev is_last : Codes → Bool
is_last l = is_full l || (not (is_nil l) && not (any is_newline l))

abbrev pub AreLines : List Codes → Type 0
AreLines [] = Unit {0}
AreLines (l ∷ []) = is_last l ≡ true
AreLines (l ∷ m ∷ ls) = (is_full l ≡ true) × AreLines (m ∷ ls)

split_full : (l t : Codes) → is_full l ≡ true → split_lines (l ++ t) ≡ l ∷ split_lines t
unfolding split_lines
split_full [] t h = cc
split_full (c ∷ []) t h = rw h refl
split_full (c ∷ d ∷ s) t h = ground (arith, split_full (d ∷ s) t)

split_partial : (l : Codes) → is_nil l ≡ false → any is_newline l ≡ false → split_lines l ≡ l ∷ []
unfolding split_lines
split_partial [] n h = cc
split_partial (c ∷ []) n h = ground arith
split_partial (c ∷ d ∷ s) n h = ground (arith, split_partial (d ∷ s))

split_lines-joined : (ls : List Codes) → AreLines ls → split_lines (joined ls) ≡ ls
unfolding joined split_lines
split_lines-joined [] h = refl
split_lines-joined (l ∷ []) h = elim (Bool-cases (is_full l)) [
  | inl full ↦ split_full l [] full
  | inr part ↦ rw (append-nil l) (split_partial l (ground (arith, h)) (ground (arith, h)))
]
split_lines-joined (l ∷ m ∷ ls) h =
    split_full l (joined (m ∷ ls)) h.0 ∙ ap (λ r. l ∷ r) (split_lines-joined (m ∷ ls) h.1)

AreLines-push :
    (c : ℕ) (ls : List Codes) → is_newline c ≡ false → AreLines ls → AreLines (push_first c ls)
AreLines-push c [] n h = ground arith
AreLines-push c ([] ∷ []) n h = ground arith
AreLines-push c ((d ∷ s) ∷ []) n h = ground arith
AreLines-push c ([] ∷ m ∷ ls) n h = cc (h.0)
AreLines-push c ((d ∷ s) ∷ m ∷ ls) n h = (ground (arith, h.0), h.1)

AreLines-cons_full :
    (l : Codes) (ls : List Codes) → is_full l ≡ true → AreLines ls → AreLines (l ∷ ls)
AreLines-cons_full l [] f h = ground (arith, f)
AreLines-cons_full l (m ∷ ls) f h = (f, h)

AreLines-tail : (l : Codes) (ls : List Codes) → AreLines (l ∷ ls) → AreLines ls
AreLines-tail l [] h = tt
AreLines-tail l (m ∷ ls) h = h.1

pub AreLines-split_lines : (s : Codes) → AreLines (split_lines s)
unfolding split_lines
AreLines-split_lines [] = tt
AreLines-split_lines (c ∷ s) = elim (Bool-cases (is_newline c)) [
  | inl new ↦
      let e : c ≡ 10 = ground (arith, new) in
      rw e (AreLines-cons_full (10 ∷ []) _ refl (AreLines-split_lines s))
  | inr inside ↦ rw inside (AreLines-push c _ inside (AreLines-split_lines s))
]

-- A change of one line.
pub AreLines-replace_line :
    (start new : Codes) (ls : List Codes)
    → is_full new ≡ true
    → AreLines ls
    → AreLines (replace_line start new ls)
unfolding replace_line
AreLines-replace_line start new [] n h = tt
AreLines-replace_line start new (l ∷ ls) n h = elim (Bool-cases (starts_with start l)) [
  | inl found ↦ rw found (AreLines-cons_full new ls n (AreLines-tail l ls h))
  | inr other ↦ rw other (kept l ls h (AreLines-replace_line start new ls n (AreLines-tail l ls h)))
]
  where
    kept :
        (l : Codes) (ls : List Codes)
        → AreLines (l ∷ ls)
        → AreLines (replace_line start new ls)
        → AreLines (l ∷ replace_line start new ls)
    kept l [] h k = h
    kept l (m ∷ ls) h k = AreLines-cons_full l _ h.0 k

is_full-append :
    (l : Codes) → is_nil l ≡ false → any is_newline l ≡ false → is_full (l ++ 10 ∷ []) ≡ true
is_full-append [] n h = cc
is_full-append (c ∷ []) n h = ground arith
is_full-append (c ∷ d ∷ s) n h = ground (arith, is_full-append (d ∷ s))

ends_line-eq : (l : Codes) → is_last l ≡ true → ends_line l ≡ is_full l
ends_line-eq [] h = cc
ends_line-eq (c ∷ []) h = ground arith
ends_line-eq (c ∷ d ∷ s) h = ground (arith, ends_line-eq (d ∷ s))

pub AreLines-append_line :
    (new : Codes) (ls : List Codes)
    → is_full new ≡ true
    → AreLines ls
    → AreLines (append_line new ls)
unfolding append_line
AreLines-append_line new [] n h = ground (arith, n)
AreLines-append_line new (l ∷ []) n h = ground (arith, ends_line-eq l h, is_full-append l, n)
AreLines-append_line new (l ∷ m ∷ []) n h = (h.0, AreLines-append_line new (m ∷ []) n h.1)
AreLines-append_line new (l ∷ m ∷ k ∷ ls) n h = (h.0, AreLines-append_line new (m ∷ k ∷ ls) n h.1)

-- No line holds a carriage return.
abbrev pub has_no_return : List Codes → Bool
has_no_return ls = all (λ l. not (any is_return l)) ls

decode_clean : (s : Codes) → any is_return s ≡ false → decode_newlines false s ≡ s
unfolding decode_newlines
decode_clean [] h = refl
decode_clean (c ∷ s) h = ground (arith, decode_clean s)

clean_decode : (b : Bool) (s : Codes) → any is_return (decode_newlines b s) ≡ false
unfolding decode_newlines
clean_decode b [] = refl
clean_decode b (c ∷ s) = ground (arith, clean_decode false s, clean_decode true s)

clean_push :
    (c : ℕ) (ls : List Codes)
    → is_return c ≡ false
    → has_no_return ls ≡ true
    → has_no_return (push_first c ls) ≡ true
clean_push c [] h k = ground arith
clean_push c (l ∷ ls) h k = ground arith

clean_split : (s : Codes) → any is_return s ≡ false → has_no_return (split_lines s) ≡ true
unfolding split_lines
clean_split [] h = refl
clean_split (c ∷ s) h = ground (arith, clean_split s, clean_push c (split_lines s))

clean_joined : (ls : List Codes) → has_no_return ls ≡ true → any is_return (joined ls) ≡ false
unfolding joined
clean_joined [] h = refl
clean_joined (l ∷ ls) h = ground (arith, any-append is_return l (joined ls), clean_joined ls)

pub clean_read_lines : (s : Codes) → has_no_return (read_lines s) ≡ true
clean_read_lines s = clean_split (decode_newlines false s) (clean_decode false s)

pub clean_replace_line :
    (start new : Codes) (ls : List Codes)
    → any is_return new ≡ false
    → has_no_return ls ≡ true
    → has_no_return (replace_line start new ls) ≡ true
unfolding replace_line
clean_replace_line start new [] n h = refl
clean_replace_line start new (l ∷ ls) n h = ground (arith, clean_replace_line start new ls n)

pub clean_append_line :
    (new : Codes) (ls : List Codes)
    → any is_return new ≡ false
    → has_no_return ls ≡ true
    → has_no_return (append_line new ls) ≡ true
unfolding append_line
clean_append_line new [] n h = ground arith
clean_append_line new (l ∷ []) n h = ground (arith, any-append is_return l (10 ∷ []))
clean_append_line new (l ∷ m ∷ ls) n h = ground (arith, clean_append_line new (m ∷ ls) n)

-- Lines that were written are the lines that are read.
pub read_lines-joined :
    (ls : List Codes) → AreLines ls → has_no_return ls ≡ true → read_lines (joined ls) ≡ ls
read_lines-joined ls h k =
    ap split_lines (decode_clean (joined ls) (clean_joined ls k)) ∙ split_lines-joined ls h

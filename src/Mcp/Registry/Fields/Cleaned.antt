-- ===== src/Mcp/Registry/Fields/Cleaned.antt =====
-- app/admin/mcp.py: settings that were cleaned are in range.
use channel_agent.Prelude.{
  ℕ, ◌≡◌, refl, ◌+◌, ◌&&◌, not, Bool, true, false, List, [], ◌∷◌, ◌++◌, any, all, length,
  length-append, leb, if◌then◌else◌, Codes, arith,
}
use channel_agent.Exec.{Result, ok, err, invalid_input}
use channel_agent.Mcp.Server.{Egress}
use channel_agent.Mcp.Registry.Fields.{
  Value, null, other, text, number, flag, texts, object, Setting, is_url, is_url_key, url, env_vars,
  egress, enabled, timeout_seconds, concurrency_limit, result_max_bytes, disabled_tools, Given,
  max_disabled_tools, whole, as_setting, is_key, add_setting, without_repeats, is_http_url,
  clean_url, clean_env_vars, clean_egress, clean_enabled, clean_timeout, clean_concurrency,
  clean_result_max_bytes, clean_disabled_tools, clean_setting, clean_all, clean_fields,
}

abbrev pub in_range : Setting → Bool
in_range (url u) = is_http_url u
in_range (env_vars v) = true
in_range (egress e) = true
in_range (enabled b) = true
in_range (timeout_seconds n) = leb 1 n && leb n 600
in_range (concurrency_limit n) = leb 1 n && leb n 20
in_range (result_max_bytes n) = leb 1 n && leb n 10000000
in_range (disabled_tools t) = leb (length t) max_disabled_tools

whole_lem : (limit : ℕ) (v : Value) (n : ℕ) → whole limit v ≡ ok n → (leb 1 n && leb n limit) ≡ true
whole_lem limit v n h = ground (arith, h)

url_lem : (v : Value) (u : Codes) → clean_url v ≡ ok u → is_http_url u ≡ true
unfolding clean_url
url_lem v u h = ground (arith, h)

length-without_repeats :
    (seen ts : List Codes) → leb (length (without_repeats seen ts)) (length seen + length ts) ≡ true
length-without_repeats seen [] = ground arith
length-without_repeats seen (t ∷ ts) = ground (
  arith,
  length-without_repeats seen ts,
  length-without_repeats (seen ++ t ∷ []) ts,
  length-append seen (t ∷ []),
)

disabled_lem :
    (v : Value) (t : List Codes)
    → clean_disabled_tools v ≡ ok t
    → leb (length t) max_disabled_tools ≡ true
unfolding clean_disabled_tools
disabled_lem null t h = ground (arith, h)
disabled_lem (texts names) t h = ground (arith, h, length-without_repeats [] names)
disabled_lem other t h = cc
disabled_lem (text s) t h = cc
disabled_lem (number n) t h = cc
disabled_lem (flag b) t h = cc
disabled_lem (object o) t h = cc

module _ (q : Setting → Bool) where
  as_setting_lem :
      {A : Type 0} (f : A → Setting) (r : Result A) (t : Setting)
      → ((a : A) → r ≡ ok a → q (f a) ≡ true)
      → as_setting f r ≡ ok t
      → q t ≡ true
  as_setting_lem f (err e) t k h = cc
  as_setting_lem f (ok a) t k h = ground (arith, h, k a refl)

  -- One of two results is the one that is there.
  either_lem :
      (b : Bool) (x y : Result Setting) (t : Setting)
      → (b ≡ true → x ≡ ok t → q t ≡ true)
      → (y ≡ ok t → q t ≡ true)
      → (if b then x else y) ≡ ok t
      → q t ≡ true
  either_lem true x y t f g h = f refl h
  either_lem false x y t f g h = g h

  refused_lem : (t : Setting) → err invalid_input ≡ ok t → q t ≡ true
  refused_lem t h = cc

  -- What holds of each setting that its cleaner returns holds of what is cleaned by name; the first is
  -- only asked for where the name is "url".
  by_name :
      (key : Codes) (v : Value) (t : Setting)
      → (is_key key "url" ≡ true → (a : Codes) → clean_url v ≡ ok a → q (url a) ≡ true)
      → ((a : List (Codes × Codes)) → q (env_vars a) ≡ true)
      → ((a : Egress) → q (egress a) ≡ true)
      → ((a : Bool) → q (enabled a) ≡ true)
      → ((a : ℕ) → clean_timeout v ≡ ok a → q (timeout_seconds a) ≡ true)
      → ((a : ℕ) → clean_concurrency v ≡ ok a → q (concurrency_limit a) ≡ true)
      → ((a : ℕ) → clean_result_max_bytes v ≡ ok a → q (result_max_bytes a) ≡ true)
      → ((a : List Codes) → clean_disabled_tools v ≡ ok a → q (disabled_tools a) ≡ true)
      → clean_setting key v ≡ ok t
      → q t ≡ true
  unfolding clean_setting
  by_name key v t f1 f2 f3 f4 f5 f6 f7 f8 h =
      either_lem (is_key key "url") _ _ t (λ is. as_setting_lem url (clean_url v) t (f1 is))
        (either_lem (is_key key "env_vars") _ _ t
          (λ is. as_setting_lem env_vars (clean_env_vars v) t (λ a e. f2 a))
          (either_lem (is_key key "egress") _ _ t
            (λ is. as_setting_lem egress (clean_egress v) t (λ a e. f3 a))
            (either_lem (is_key key "enabled") _ _ t
              (λ is. as_setting_lem enabled (clean_enabled v) t (λ a e. f4 a))
              (either_lem (is_key key "timeout_seconds") _ _ t
                (λ is. as_setting_lem timeout_seconds (clean_timeout v) t f5)
                (either_lem (is_key key "concurrency_limit") _ _ t
                  (λ is. as_setting_lem concurrency_limit (clean_concurrency v) t f6)
                  (either_lem (is_key key "result_max_bytes") _ _ t
                    (λ is. as_setting_lem result_max_bytes (clean_result_max_bytes v) t f7)
                    (either_lem (is_key key "disabled_tools") _ _ t
                      (λ is. as_setting_lem disabled_tools (clean_disabled_tools v) t f8)
                      (refused_lem t))))))))
        h

clean_setting-in_range :
    (key : Codes) (v : Value) (t : Setting) → clean_setting key v ≡ ok t → in_range t ≡ true
unfolding clean_timeout clean_concurrency clean_result_max_bytes
clean_setting-in_range key v t =
    by_name in_range key v t (λ k. url_lem v) (λ a. refl) (λ a. refl) (λ a. refl) (whole_lem 600 v)
      (whole_lem 20 v) (whole_lem 10000000 v) (disabled_lem v)

clean_setting-other :
    (key : Codes) (v : Value) (t : Setting)
    → is_key key "url" ≡ false
    → clean_setting key v ≡ ok t
    → not (is_url t) ≡ true
clean_setting-other key v t n =
    by_name (λ s. not (is_url s)) key v t (λ k. cc) (λ a. refl) (λ a. refl) (λ a. refl)
      (λ a e. refl) (λ a e. refl) (λ a e. refl) (λ a e. refl)

clean_setting-url :
    (key : Codes) (v : Value) (t : Setting)
    → is_key key "url" ≡ true
    → clean_setting key v ≡ ok t
    → is_url t ≡ true
unfolding clean_setting
clean_setting-url key v t k h =
    as_setting_lem is_url url (clean_url v) t (λ a e. refl) (ground (arith, h, k))

add_lem :
    (r : Result Setting) (rs : Result (List Setting)) (ts : List Setting)
    → add_setting r rs ≡ ok ts
    → (t : Setting) × (rest : List Setting) × (r ≡ ok t) × (rs ≡ ok rest) × (ts ≡ t ∷ rest)
add_lem (err e) rs ts h = cc
add_lem (ok t) (err e) ts h = cc
add_lem (ok t) (ok rest) ts h = (t, rest, refl, refl, ground (arith, h))

clean_all-in_range :
    (fields : Given) (ts : List Setting) → clean_all fields ≡ ok ts → all in_range ts ≡ true
unfolding clean_all
clean_all-in_range [] ts h = ground (arith, h)
clean_all-in_range ((key, v) ∷ rest) ts h =
    let (t, us, e, f, g) = add_lem (clean_setting key v) (clean_all rest) ts h in
    rw g (ground (arith, clean_setting-in_range key v t e, clean_all-in_range rest us f))

clean_all-url :
    (fields : Given) (ts : List Setting)
    → clean_all fields ≡ ok ts
    → any is_url ts ≡ any is_url_key fields
unfolding clean_all
clean_all-url [] ts h = ground (arith, h)
clean_all-url ((key, v) ∷ rest) ts h =
    let (t, us, e, f, g) = add_lem (clean_setting key v) (clean_all rest) ts h in
    rw g (
      ground
        (arith, clean_setting-url key v t, clean_setting-other key v t, e, clean_all-url rest us f))

pub clean_fields-in_range :
    (fields : Given) (ts : List Setting) → clean_fields fields ≡ ok ts → all in_range ts ≡ true
unfolding clean_fields
clean_fields-in_range fields ts h = clean_all-in_range fields ts (ground (arith, h))

pub clean_fields-url :
    (fields : Given) (ts : List Setting)
    → clean_fields fields ≡ ok ts
    → any is_url ts ≡ any is_url_key fields
unfolding clean_fields
clean_fields-url fields ts h = clean_all-url fields ts (ground (arith, h))

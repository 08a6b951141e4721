-- ===== src/HttpUrl/Authority.antt =====
-- Where the authority of a URL ends (`parse_http_url` of src/core/http_url.cpp).
use pixel_status_nx.Prelude.{
  ℕ, zero, suc, ◌+◌, ◌≡◌, refl, sym, ap, ◌∙◌, inl, inr, Bool, false, none, some, [], ◌∷◌, Text, str,
  arith, Bool-cases, Option-cases, length, take, drop, any_of,
}
use pixel_status_nx.Search.{find_where, is_prefix}
use pixel_status_nx.HttpUrl.{
  HttpScheme, http, https, target_start, is_target_start, scheme_of, http_prefix, https_prefix,
}

-- The text that a scheme begins with.
abbrev pub scheme_text : HttpScheme → Text
scheme_text http = str "http://"
scheme_text https = str "https://"

some_inj : {A : Type 0} {a b : A} → some a ≡ some b → a ≡ b
some_inj h = cc h

pub scheme_of-text :
    (url : Text) (scheme : HttpScheme) (start : ℕ)
    → scheme_of url ≡ some (scheme, start)
    → start ≡ length (scheme_text scheme)
unfolding scheme_of http_prefix https_prefix str
scheme_of-text url scheme start h = elim (Bool-cases (is_prefix http_prefix url)) [
  | inl e ↦
      let p = some_inj (rw (e, scheme_of) at h) in
      ap (λ (q : HttpScheme × ℕ). q.1) (sym p)
      ∙ ap (λ (q : HttpScheme × ℕ). length (scheme_text q.0)) p
  | inr e ↦ elim (Bool-cases (is_prefix https_prefix url)) [
    | inl e' ↦
        let p = some_inj (rw (e, e', scheme_of) at h) in
        ap (λ (q : HttpScheme × ℕ). q.1) (sym p)
        ∙ ap (λ (q : HttpScheme × ℕ). length (scheme_text q.0)) p
    | inr e' ↦ cc (rw (e, e', scheme_of) at h)
  ]
]

none-any_of : (test : ℕ → Bool) (xs : Text) → find_where test xs ≡ none → any_of test xs ≡ false
unfolding find_where
none-any_of test [] h = refl
none-any_of test (c ∷ xs) h = elim (Bool-cases (test c)) [
  | inl e ↦ cc (rw (e, find_where) at h)
  | inr e ↦ elim (Option-cases (find_where test xs)) [
    | inl n ↦ rw e (none-any_of test xs n)
    | inr (k, n) ↦ cc (rw (e, n, find_where) at h)
  ]
]

some-any_of :
    (test : ℕ → Bool) (xs : Text) (i : ℕ)
    → find_where test xs ≡ some i
    → any_of test (take i xs) ≡ false
unfolding find_where
some-any_of test [] i h = cc h
some-any_of test (c ∷ xs) zero h = refl
some-any_of test (c ∷ xs) (suc i) h = elim (Bool-cases (test c)) [
  | inl e ↦ cc (rw (e, find_where) at h)
  | inr e ↦ elim (Option-cases (find_where test xs)) [
    | inl n ↦ cc (rw (e, n, find_where) at h)
    | inr (k, n) ↦ rw e (some-any_of test xs i (n ∙ same k (rw (e, n, find_where) at h)))
  ]
]
  where
    same : (k : ℕ) → some (suc k) ≡ some (suc i) → some k ≡ some i
    same k p = ap some (omega (arith, some_inj p))

drop-take : (n i : ℕ) (xs : Text) → drop n (take (n + i) xs) ≡ take i (drop n xs)
drop-take zero i xs = ap (λ k. take k xs) (omega arith)
drop-take (suc n) i [] = short (suc n + i) ∙ sym (empty i)
  where
    empty : (k : ℕ) → take {A = ℕ} k [] ≡ []
    empty zero = refl
    empty (suc k) = refl

    short : (k : ℕ) → drop {A = ℕ} (suc n) (take k []) ≡ []
    short zero = refl
    short (suc k) = refl
drop-take (suc n) i (x ∷ xs) = ap (λ k. drop (suc n) (take k (x ∷ xs))) more ∙ drop-take n i xs
  where
    more : suc n + i ≡ suc (n + i)
    more = omega arith

take-all : (xs : Text) → take (length xs) xs ≡ xs
take-all [] = refl
take-all (x ∷ xs) = ap (λ ys. x ∷ ys) (take-all xs)

-- The authority holds no byte that starts a target.
pub target_start-any_of :
    (start : ℕ) (url : Text)
    → any_of is_target_start (drop start (take (target_start start url) url)) ≡ false
unfolding target_start
target_start-any_of start url = elim (Option-cases (find_where is_target_start (drop start url))) [
  | inl e ↦ rw (e, target_start, take-all url) (none-any_of is_target_start (drop start url) e)
  | inr (i, e) ↦
      rw (e, target_start, drop-take start i url) (some-any_of is_target_start (drop start url) i e)
]

-- ===== src/Security/Text.antt =====
-- Texts as lists of code points, with the methods of Python's `str` and `bytes` that tokens need.
use Prim.Native.Char.{code}
use sms_backend.Common.{
  ℕ, zero, suc, ◌≡◌, refl, ap, ◌∙◌, String, Bool, true, false, ◌&&◌, List, [], ◌∷◌, ◌++◌, ◌==◌, All,
  Bool-cases, inl, inr, if◌then◌else◌, ==→eq, ==_refl, ltb,
}

abbrev pub Text : Type 0
Text = List ℕ

abbrev pub codes : String → Text
codes String.[] = []
codes (String.◌∷◌ c s) = code c ∷ codes s

abbrev pub text_eq : Text → Text → Bool
text_eq [] [] = true
text_eq [] (d ∷ t) = false
text_eq (c ∷ s) [] = false
text_eq (c ∷ s) (d ∷ t) = c == d && text_eq s t

pub text_eq_refl : (s : Text) → text_eq s s ≡ true
text_eq_refl [] = refl
text_eq_refl (c ∷ s) = rw (==_refl c, text_eq_refl s) refl

pub text_eq→eq : (s t : Text) → text_eq s t ≡ true → s ≡ t
text_eq→eq [] [] h = refl
text_eq→eq [] (d ∷ t) h = absurd (cc h)
text_eq→eq (c ∷ s) [] h = absurd (cc h)
text_eq→eq (c ∷ s) (d ∷ t) h = elim (Bool-cases (c == d)) [
  | inl e ↦ ap (λ k. k ∷ s) (==→eq c d e) ∙ ap (◌∷◌ d) (text_eq→eq s t (rw e at h))
  | inr e ↦ absurd (cc (rw e at h))
]

abbrev pub is_empty : Text → Bool
is_empty [] = true
is_empty (c ∷ s) = false

abbrev pub is_ascii : Text → Bool
is_ascii [] = true
is_ascii (c ∷ s) = ltb c 128 && is_ascii s

-- `c * n`
unfoldable pub replicate : ℕ → ℕ → Text
replicate zero c = []
replicate (suc n) c = c ∷ replicate n c

-- `s.rstrip(c)` for one character
unfoldable pub rstrip : ℕ → Text → Text
rstrip k [] = []
rstrip k (c ∷ s) = let rest = rstrip k s in if c == k && is_empty rest then [] else c ∷ rest

abbrev on_first : ℕ → List Text → List Text
on_first c [] = (c ∷ []) ∷ []
on_first c (p ∷ ps) = (c ∷ p) ∷ ps

-- `s.split(c)` for one character
unfoldable pub split : ℕ → Text → List Text
split k [] = [] ∷ []
split k (c ∷ s) = let rest = split k s in if c == k then [] ∷ rest else on_first c rest

abbrev pub Lacks : ℕ → Text → Type 0
Lacks k = All (λ c. (c == k) ≡ false)

-- a part without the separator is cut off whole
pub split-part : (k : ℕ) (s t : Text) → Lacks k s → split k (s ++ k ∷ t) ≡ s ∷ split k t
unfolding split
split-part k [] t h = rw (==_refl k) refl
split-part k (c ∷ s) t (h, hs) = rw (h, split-part k s t hs) refl

pub split_last : (k : ℕ) (s : Text) → Lacks k s → split k s ≡ s ∷ []
unfolding split
split_last k [] h = refl
split_last k (c ∷ s) (h, hs) = rw (h, split_last k s hs) refl

rstrip-replicate : (k n : ℕ) → rstrip k (replicate n k) ≡ []
unfolding rstrip replicate
rstrip-replicate k zero = refl
rstrip-replicate k (suc n) = rw (rstrip-replicate k n, ==_refl k) refl

-- the padding goes, and nothing else
pub rstrip-append : (k n : ℕ) (s : Text) → Lacks k s → rstrip k (s ++ replicate n k) ≡ s
unfolding rstrip
rstrip-append k n [] h = rstrip-replicate k n
rstrip-append k n (c ∷ s) (h, hs) = rw (rstrip-append k n s hs, h) refl

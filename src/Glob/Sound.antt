-- ===== src/Glob/Sound.antt =====
-- What a glob pattern means, as a relation that knows no search, no collapsing of stars and no order of
-- attempts; GlobMatch accepts only what it relates.
use ultima.Base.{
  ℕ, zero, suc, ◌≡◌, refl, sym, subst, inl, inr, Bool, true, false, Option, none, some, [], ◌∷◌,
  Bytes, ◌==◌, ==_iff, Bool-cases, true_ne_false,
}
use ultima.Glob.{
  Head, head_end, head_star, head_any, head_class, head_byte, head, skip_stars, is_negated,
  class_body, class_scan, same_bool, first, class_done, any_suffix, star_case, match_head,
  glob_rounds,
}

-- A star is any text, `?` any byte, a class a byte that its scan accepts, anything else itself.
pub data Matches : Bytes → Bytes → Type 0 where
  at_end : {p : Bytes} → head p ≡ head_end → Matches p []
  star_empty : {p q s : Bytes} → head p ≡ head_star q → Matches q s → Matches p s
  star_byte : {p q s : Bytes} (x : ℕ) → head p ≡ head_star q → Matches p s → Matches p (x ∷ s)
  any_byte : {p q s : Bytes} (x : ℕ) → head p ≡ head_any q → Matches q s → Matches p (x ∷ s)
  in_class :
      {p q r s : Bytes} (x : ℕ) (m : Bool)
      → head p ≡ head_class q
      → class_scan false (some x) (class_body q) ≡ some (m, r)
      → same_bool m (is_negated q) ≡ false
      → Matches r s
      → Matches p (x ∷ s)
  same_byte : {p q s : Bytes} (c : ℕ) → head p ≡ head_byte c q → Matches q s → Matches p (c ∷ s)

-- Some end of the text is in Q.
pub data SomeSuffix (Q : Bytes → Type 0) : Bytes → Type 0 where
  whole : {s : Bytes} → Q s → SomeSuffix Q s
  later : {s : Bytes} (x : ℕ) → SomeSuffix Q s → SomeSuffix Q (x ∷ s)

any_suffix_sound :
    (Q : Bytes → Type 0) (f : Bytes → Bool) (s : Bytes)
    → ((t : Bytes) → f t ≡ true → Q t)
    → any_suffix f s ≡ true
    → SomeSuffix Q s
unfolding any_suffix
any_suffix_sound Q f [] k h = whole (k [] h)
any_suffix_sound Q f (x ∷ s) k h = elim (Bool-cases (f (x ∷ s))) [
  | inl b ↦ whole (k (x ∷ s) b)
  | inr b ↦ later x (any_suffix_sound Q f s k (rw b at h))
]

star_suffix : {p q s : Bytes} → head p ≡ head_star q → SomeSuffix (Matches q) s → Matches p s
star_suffix e (whole m) = star_empty e m
star_suffix e (later x r) = star_byte x e (star_suffix e r)

-- Stars in front of a pattern may be added.
pub head-star : (c : ℕ) (p : Bytes) → (c == b'*') ≡ true → head (c ∷ p) ≡ head_star p
unfolding head
head-star c p h = rw h

unskip : (p s : Bytes) → Matches (skip_stars p) s → Matches p s
unfolding skip_stars
unskip [] s m = m
unskip (c ∷ p) s m = elim (Bool-cases (c == b'*')) [
  | inl b ↦ star_empty (head-star c p b) (unskip p s (rw b at m))
  | inr b ↦ rw b at m
]

pub head_nil : head [] ≡ head_end
unfolding head
head_nil = refl

star_all : (p q s : Bytes) → head p ≡ head_star q → Matches q [] → Matches p s
star_all p q [] e m = star_empty e m
star_all p q (x ∷ s) e m = star_byte x e (star_all p q s e m)

star_sound :
    (rec : Bytes → Bytes → Bool) (p q r s : Bytes)
    → ((q t : Bytes) → rec q t ≡ true → Matches q t)
    → head p ≡ head_star q
    → skip_stars q ≡ r
    → star_case rec r s ≡ true
    → Matches p s
unfolding star_case
star_sound rec p q [] s k e r h =
    star_all p q s e (unskip q [] (subst (λ u. Matches u []) (sym r) (at_end head_nil)))
star_sound rec p q (c ∷ r) s k e f h =
    let found = any_suffix_sound (Matches (c ∷ r)) (rec (c ∷ r)) s (k (c ∷ r)) h in
    star_suffix e (unskip_suffix q s (subst (λ u. SomeSuffix (Matches u) s) (sym f) found))
  where
    unskip_suffix : (q s : Bytes) → SomeSuffix (Matches (skip_stars q)) s → SomeSuffix (Matches q) s
    unskip_suffix q s (whole m) = whole (unskip q s m)
    unskip_suffix q _ (later {s = t} x o) = later x (unskip_suffix q t o)

class_sound :
    (rec : Bytes → Bytes → Bool) (p q s : Bytes) (o : Option (Bool × Bytes))
    → ((q t : Bytes) → rec q t ≡ true → Matches q t)
    → head p ≡ head_class q
    → class_scan false (first s) (class_body q) ≡ o
    → class_done rec (is_negated q) s o ≡ true
    → Matches p s
unfolding class_done
class_sound rec p q s none k e o h = absurd (true_ne_false (sym h))
class_sound rec p q [] (some (m, r)) k e o h = absurd (true_ne_false (sym h))
class_sound rec p q (x ∷ s) (some (m, r)) k e o h = elim (Bool-cases (same_bool m (is_negated q))) [
  | inl b ↦ absurd (true_ne_false (sym (rw b at h)))
  | inr b ↦ in_class x m e o b (k r s (rw b at h))
]

head_sound :
    (rec : Bytes → Bytes → Bool) (p s : Bytes) (h : Head)
    → ((q t : Bytes) → rec q t ≡ true → Matches q t)
    → head p ≡ h
    → match_head rec h s ≡ true
    → Matches p s
unfolding match_head
head_sound rec p [] head_end k e h = at_end e
head_sound rec p (x ∷ s) head_end k e h = absurd (true_ne_false (sym h))
head_sound rec p s (head_star q) k e h = star_sound rec p q (skip_stars q) s k e refl h
head_sound rec p [] (head_any q) k e h = absurd (true_ne_false (sym h))
head_sound rec p (x ∷ s) (head_any q) k e h = any_byte x e (k q s h)
head_sound rec p s (head_class q) k e h =
    class_sound rec p q s (class_scan false (first s) (class_body q)) k e refl h
head_sound rec p [] (head_byte c q) k e h = absurd (true_ne_false (sym h))
head_sound rec p (x ∷ s) (head_byte c q) k e h = elim (Bool-cases (c == x)) [
  | inl b ↦ subst (λ y. Matches p (y ∷ s)) ((==_iff c x).0 b) (same_byte c e (k q s (rw b at h)))
  | inr b ↦ absurd (true_ne_false (sym (rw b at h)))
]

pub rounds_sound : (n : ℕ) (p s : Bytes) → glob_rounds n p s ≡ true → Matches p s
unfolding glob_rounds
rounds_sound zero p s h = head_sound _ p s (head p) (λ q t f. absurd (true_ne_false (sym f))) refl h
rounds_sound (suc n) p s h = head_sound (glob_rounds n) p s (head p) (rounds_sound n) refl h

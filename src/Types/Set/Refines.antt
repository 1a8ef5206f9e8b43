-- ===== src/Types/Set/Refines.antt =====
-- A set value as a finite set of texts: any sequence of Add and Remove, from the empty set.
use ultima.Base.{
  ◌≡◌, refl, ap, ◌∙◌, Bool, false, not, Option, none, some, List, [], ◌∷◌, Bytes, length, All,
  arith, ◌>>=◌,
}
use ultima.Base.Maps.{remove_key, lookup_key}
use ultima.Types.Set.{MemberMap, IntSet, new_set, in_map, contains, set_len, set_add, set_remove}
use ultima.Base.Int.{ℤ}
use ultima.Numbers.{parse_int64}
use ultima.Types.Set.Ints.{in_ints}
use ultima.Types.Set.Encoding.{has_int, IsShort, IsSetValue, contains-has}
use ultima.Types.Set.Forms.{Stands}
use ultima.Types.Set.Adding.{with_member, set_add_lem}
use ultima.Types.Set.Removing.{set_remove_lem}

-- Calls on one set.
pub data SetOp : Type 0 where
  sadd srem : Bytes → SetOp

abbrev pub op_text : SetOp → Bytes
op_text (sadd m) = m
op_text (srem m) = m

abbrev pub call : SetOp → IntSet → Option (IntSet × Bool)
call (sadd m) s = set_add s m
call (srem m) s = set_remove s m

-- The calls one after another, with what each returned.
unfoldable pub calls : List SetOp → IntSet → Option (IntSet × List Bool)
calls [] s = some (s, [])
calls (op ∷ ops) s = (call op s) >>= (λ r. (calls ops r.0) >>= (λ q. some (q.0, r.1 ∷ q.1)))

-- The same on a finite set of texts.
abbrev pub change : SetOp → MemberMap → MemberMap
change (sadd m) l = with_member l m
change (srem m) l = remove_key l m

abbrev pub answer : SetOp → MemberMap → Bool
answer (sadd m) l = not (in_map l m)
answer (srem m) l = in_map l m

unfoldable pub texts : List SetOp → MemberMap → MemberMap
texts [] l = l
texts (op ∷ ops) l = texts ops (change op l)

unfoldable pub answers : List SetOp → MemberMap → List Bool
answers [] l = []
answers (op ∷ ops) l = answer op l ∷ answers ops (change op l)

call_lem :
    (op : SetOp) (s : IntSet) (l : MemberMap)
    → IsShort (op_text op)
    → Stands s l
    → (s' : IntSet) × (call op s ≡ some (s', answer op l)) × Stands s' (change op l)
call_lem (sadd m) s l short st = set_add_lem s l m short st
call_lem (srem m) s l short st = set_remove_lem s l m short st

calls_lem :
    (ops : List SetOp) (s : IntSet) (l : MemberMap)
    → All (λ op. IsShort (op_text op)) ops
    → Stands s l
    → (s' : IntSet) × (calls ops s ≡ some (s', answers ops l)) × Stands s' (texts ops l)
unfolding calls answers texts
calls_lem [] s l short st = (s, refl, st)
calls_lem (op ∷ ops) s l short st =
    let (s₁, e₁, st₁) = call_lem op s l short.0 st in
    let (s₂, e₂, st₂) = calls_lem ops s₁ (change op l) short.1 st₁ in (s₂, rw (e₁, e₂) refl, st₂)

holds_nothing : (o : Option ℤ) → has_int [] o ≡ false
unfolding in_ints
holds_nothing none = refl
holds_nothing (some v) = refl

pub new_set-Stands : Stands new_set []
unfolding set_len in_map lookup_key
new_set-Stands = record {
  valid = (tt, tt, omega arith, refl);
  unique = tt;
  size = refl;
  view = λ j sj. holds_nothing (parse_int64 j);
}

-- For texts of at most 19 digits: any sequence of Add and Remove on a new Set runs without a panic
-- and without running out of the search's fuel, returns what a finite set of texts answers, and
-- afterwards Contains and Len agree with that finite set; the set stays well-formed through the
-- change of encoding.
pub set_history_refines :
    (ops : List SetOp) (j : Bytes)
    → All (λ op. IsShort (op_text op)) ops
    → IsShort j
    → (s : IntSet) × (calls ops new_set ≡ some (s, answers ops []))
      × IsSetValue s
      × (contains s j ≡ some (in_map (texts ops []) j))
      × (set_len s ≡ length (texts ops []))
set_history_refines ops j short sj =
    let (s, e, st) = calls_lem ops new_set [] short new_set-Stands in
    (s, e, st.valid, contains-has s j st.valid ∙ ap some (st.view j sj), st.size)

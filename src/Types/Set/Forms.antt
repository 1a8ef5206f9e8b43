-- ===== src/Types/Set/Forms.antt =====
-- A set value that stands for a finite set of texts, in each encoding.
use ultima.Base.{
  ◌≡◌, refl, inl, inr, Bool, true, false, none, Bytes, length, Option-cases, arith, if◌then◌else◌,
}
use ultima.Base.Maps.{lookup_key, Unique}
use ultima.Numbers.{parse_int64}
use ultima.Types.Set.{MemberMap, IntSet, in_map, set_len}
use ultima.Types.Set.Encoding.{has_int, has, IsShort, IsSetValue, Encoded}

-- The set stands for the texts of `l`.
pub record Stands (s : IntSet) (l : MemberMap) : Type 0 where
  pub valid : IsSetValue s
  pub unique : Unique l
  pub size : set_len s ≡ length l
  pub view : (j : Bytes) → IsShort j → has s j ≡ in_map l j

-- The same, for each encoding.
pub record MapForm (s : IntSet) (l : MemberMap) : Type 0 where
  pub encoded : Encoded false s.ints s.member s.bytes
  pub unique : Unique l
  pub size : length s.member ≡ length l
  pub view : (j : Bytes) → IsShort j → in_map s.member j ≡ in_map l j

pub record IntForm (s : IntSet) (l : MemberMap) : Type 0 where
  pub encoded : Encoded true s.ints s.member s.bytes
  pub unique : Unique l
  pub size : length s.ints ≡ length l
  pub view : (j : Bytes) → IsShort j → has_int s.ints (parse_int64 j) ≡ in_map l j

module _ (s : IntSet) (l : MemberMap) where
  pub map_form : s.is_int ≡ false → Stands s l → MapForm s l
  unfolding set_len
  map_form b st = record {
    encoded = (rw b at st.valid);
    unique = st.unique;
    size = (rw b at st.size);
    view = (rw b at st.view);
  }

  pub of_map : s.is_int ≡ false → MapForm s l → Stands s l
  unfolding set_len
  of_map b f = record {
    valid = rw b f.encoded;
    unique = f.unique;
    size = rw b f.size;
    view = rw b f.view;
  }

  pub int_form : s.is_int ≡ true → Stands s l → IntForm s l
  unfolding set_len
  int_form b st = record {
    encoded = (rw b at st.valid);
    unique = st.unique;
    size = (rw b at st.size);
    view = (rw b at st.view);
  }

  pub of_ints : s.is_int ≡ true → IntForm s l → Stands s l
  unfolding set_len
  of_ints b f = record {
    valid = rw b f.encoded;
    unique = f.unique;
    size = rw b f.size;
    view = rw b f.view;
  }

pub not_in_map : (l : MemberMap) (m : Bytes) → in_map l m ≡ false → lookup_key l m ≡ none
unfolding in_map
not_in_map l m h = elim (Option-cases (lookup_key l m)) [
  | inl e ↦ e
  | inr (u, e) ↦ absurd (ground arith)
]

pub if-true {ℓ} : {A : Type ℓ} (b : Bool) (x y : A) → b ≡ true → (if b then x else y) ≡ x
if-true b x y e = rw e refl

pub if-false {ℓ} : {A : Type ℓ} (b : Bool) (x y : A) → b ≡ false → (if b then x else y) ≡ y
if-false b x y e = rw e refl

-- ===== src/Commands/Sets/Combined.antt =====
-- SINTER, SUNION and SDIFF, and their store forms, on the keyspace of the whole engine.
use ultima.Base.{
  ℕ, ◌≡◌, refl, ap, sym, ◌∙◌, Bool, true, false, not, ◌&&◌, ◌||◌, Option, none, some, List, [], ◌∷◌,
  Bytes, All, map, true_ne_false,
}
use ultima.Base.Maps.{is_one_of}
use ultima.Platform.{Platform}
use ultima.Resp.{Value}
use ultima.Types.Set.{MemberMap, IntSet, members}
use ultima.Types.Set.Encoding.{IsShort, has}
use ultima.Types.Set.Forms.{Stands}
use ultima.Types.Set.Members.{members-Listed}
use ultima.Shard.View.{Content}
use ultima.Commands.{Server}
use ultima.Commands.Lift.{keyspace}
use ultima.Commands.Multi.{itself}
use ultima.Commands.Multi.Effect.{do_multi-Applied, apply_all-read}
use ultima.Commands.Collections.{Sets}
use ultima.Commands.SetAlgebra.{Snapshot}
use ultima.Commands.SetAlgebra.Texts.{
  IsSnapshot, in_some, in_every, in_first, Collects, Collects-congr, union_all-Collects,
  diff_all-Collects,
}
use ultima.Commands.SetAlgebra.Intersection.{in_common, intersect-Collects}
use ultima.Commands.Sets.{
  Algebra, inter, union, diff, algebra, gathered, set_in, snapshot_task, snapshot_sets,
  with_snapshots, set_reply, cmd_algebra,
}
use ultima.Commands.Sets.Effect.{snapshot_of, snapshot_value, snapshot_task-Outcome}

-- The texts that an operation wants, from the tests of its inputs.
abbrev pub any_of : List (Bytes → Bool) → Bytes → Bool
any_of [] j = false
any_of (f ∷ fs) j = f j || any_of fs j

abbrev pub all_of : List (Bytes → Bool) → Bytes → Bool
all_of [] j = true
all_of (f ∷ fs) j = f j && all_of fs j

abbrev pub wanted : Algebra → List (Bytes → Bool) → Bytes → Bool
wanted inter [] j = false
wanted inter (f ∷ fs) j = all_of (f ∷ fs) j
wanted union fs j = any_of fs j
wanted diff [] j = false
wanted diff (f ∷ fs) j = f j && not (any_of fs j)

-- Snapshots that show what the tests say.
abbrev Shows : List Snapshot → List (Bytes → Bool) → Type 0
Shows [] [] = Unit
Shows [] (f ∷ fs) = ⊥
Shows (sn ∷ snaps) [] = ⊥
Shows (sn ∷ snaps) (f ∷ fs) =
    ((j : Bytes) → IsShort j → is_one_of j sn.members ≡ f j) × Shows snaps fs

some-any :
    (snaps : List Snapshot) (fs : List (Bytes → Bool)) (j : Bytes)
    → IsShort j
    → Shows snaps fs
    → in_some snaps j ≡ any_of fs j
some-any [] [] j short h = refl
some-any (sn ∷ snaps) (f ∷ fs) j short h = rw (h.0 j short, some-any snaps fs j short h.1) refl
some-any [] (f ∷ fs) j short h = absurd h
some-any (sn ∷ snaps) [] j short h = absurd h

every-all :
    (snaps : List Snapshot) (fs : List (Bytes → Bool)) (j : Bytes)
    → IsShort j
    → Shows snaps fs
    → in_every snaps j ≡ all_of fs j
every-all [] [] j short h = refl
every-all (sn ∷ snaps) (f ∷ fs) j short h = rw (h.0 j short, every-all snaps fs j short h.1) refl
every-all [] (f ∷ fs) j short h = absurd h
every-all (sn ∷ snaps) [] j short h = absurd h

common-all :
    (snaps : List Snapshot) (fs : List (Bytes → Bool)) (j : Bytes)
    → IsShort j
    → Shows snaps fs
    → in_common snaps j ≡ wanted inter fs j
common-all [] [] j short h = refl
common-all (sn ∷ snaps) (f ∷ fs) j short h = every-all (sn ∷ snaps) (f ∷ fs) j short h
common-all [] (f ∷ fs) j short h = absurd h
common-all (sn ∷ snaps) [] j short h = absurd h

first-wanted :
    (snaps : List Snapshot) (fs : List (Bytes → Bool)) (j : Bytes)
    → IsShort j
    → Shows snaps fs
    → in_first snaps j ≡ wanted diff fs j
first-wanted [] [] j short h = refl
first-wanted (sn ∷ snaps) (f ∷ fs) j short h = rw (h.0 j short, some-any snaps fs j short h.1) refl
first-wanted [] (f ∷ fs) j short h = absurd h
first-wanted (sn ∷ snaps) [] j short h = absurd h

algebra-Collects :
    (op : Algebra) (snaps : List Snapshot) (fs : List (Bytes → Bool))
    → All IsSnapshot snaps
    → Shows snaps fs
    → (ms : List Bytes) × (algebra op snaps ≡ some ms) × Collects (wanted op fs) ms
unfolding algebra
algebra-Collects inter snaps fs ok h =
    let (ms, e, c) = intersect-Collects snaps ok in
    (ms, e, Collects-congr _ (wanted inter fs) ms (λ j short. common-all snaps fs j short h) c)
algebra-Collects union snaps fs ok h =
    let (ms, e, c) = union_all-Collects snaps ok in
    (ms, e, Collects-congr _ (wanted union fs) ms (λ j short. some-any snaps fs j short h) c)
algebra-Collects diff snaps fs ok h =
    let (ms, e, c) = diff_all-Collects snaps ok in
    (ms, e, Collects-congr _ (wanted diff fs) ms (λ j short. first-wanted snaps fs j short h) c)

abbrev in_set : Option IntSet → Bytes → Bool
in_set none j = false
in_set (some x) j = has x j

module _ ⦃P : Platform⦄ ⦃O : Sets⦄ where
  -- Whether the set of a key holds a text.
  abbrev pub held_by : Option Content → Bytes → Bool
  held_by none j = false
  held_by (some c) j = in_set (set_in c.payload) j

  -- The key is missing, or holds a well-formed set whose members have at most 19 digits.
  abbrev pub IsShortSet : Option Content → Type 0
  IsShortSet none = Unit
  IsShortSet (some c) =
      (x : IntSet) × (l : MemberMap) × (ms : List Bytes) × (set_in c.payload ≡ some x)
      × Stands x l
      × (members x ≡ some ms)
      × All IsShort ms

  snapshot_lem :
      (c : Option Content)
      → IsShortSet c
      → (sn : Snapshot) × (snapshot_value c ≡ some (some sn))
        × IsSnapshot sn
        × ((j : Bytes) → IsShort j → is_one_of j sn.members ≡ held_by c j)
  snapshot_lem none ok = (_, refl, record { short = tt; absent = λ h. refl }, λ j short. refl)
  snapshot_lem (some c) (x, l, ms, here, st, listed, short) =
      let (ms', e, shown) = members-Listed x l st in
      let same : ms' ≡ ms = cc (e, listed) in
      (
        record { members = ms; present = true },
        ap (λ o. snapshot_of o) here ∙ rw listed refl,
        record { short = short; absent = λ h. absurd (true_ne_false h) },
        λ j sj.
            rw (← same) (shown.view j sj) ∙ sym (st.view j sj) ∙ sym (ap (λ o. in_set o j) here),
      )

  gathered_lem :
      (m : Bytes → Option Content) (keys : List Bytes)
      → All (λ k. IsShortSet (m k)) keys
      → (snaps : List Snapshot) × (gathered (map (λ k. snapshot_value (m k)) keys)
          ≡ some (some snaps))
        × All IsSnapshot snaps
        × Shows snaps (map (λ k. held_by (m k)) keys)
  unfolding gathered
  gathered_lem m [] ok = ([], refl, tt, tt)
  gathered_lem m (k ∷ keys) ok =
      let (sn, e, good, shown) = snapshot_lem (m k) ok.0 in
      let (snaps, e', goods, shows) = gathered_lem m keys ok.1 in
      (sn ∷ snaps, rw (e, e') refl, (good, goods), (shown, shows))

  module _ (e : Server) (db : ℕ) (keys : List Bytes) where
    snapshot_sets-gathered :
        ((snapshot_sets e db keys).0 ≡ gathered (map (λ k. snapshot_value (keyspace e db k)) keys))
        × ((d : ℕ) (j : Bytes) → keyspace (snapshot_sets e db keys).1 d j ≡ keyspace e d j)
    unfolding snapshot_sets
    snapshot_sets-gathered =
        let o =
          do_multi-Applied db itself (λ k c. (snapshot_value c, c)) (snapshot_task db)
            (λ k s. snapshot_task-Outcome s db k) e (keyspace e) keys (λ d j. refl) in
        let p =
          apply_all-read db itself snapshot_value (keyspace e) (keyspace e) keys (λ d j. refl) in
        (ap gathered (o.results ∙ p.0), λ d j. o.contents d j ∙ p.1 d j)

    -- SINTER, SUNION and SDIFF on keys that are missing or hold well-formed sets of members with
    -- at most 19 digits reply a list of distinct texts; a text of at most 19 digits is in it
    -- exactly if every key holds it (for SINTER, of at least one key), some key holds it (SUNION),
    -- or the first key and none of the others holds it (SDIFF); no visible key changes.
    pub cmd_algebra-Collects :
        (op : Algebra)
        → All (λ k. IsShortSet (keyspace e db k)) keys
        → (r : Value × Server) × (ms : List Bytes) × (cmd_algebra op e db keys ≡ some r)
          × (r.0 ≡ set_reply ms)
          × Collects (wanted op (map (λ k. held_by (keyspace e db k)) keys)) ms
          × ((d : ℕ) (j : Bytes) → keyspace r.1 d j ≡ keyspace e d j)
    unfolding cmd_algebra with_snapshots
    cmd_algebra-Collects op ok =
        let (snaps, g, good, shows) = gathered_lem (keyspace e db) keys ok in
        let (ms, run, c) = algebra-Collects op snaps _ good shows in
        let e₁ = (snapshot_sets e db keys).1 in
        (
          (set_reply ms, e₁),
          ms,
          ap (with_snapshots op e₁ (λ ms. some (set_reply ms, e₁))) (snapshot_sets-gathered.0 ∙ g)
              ∙ rw run refl,
          refl,
          c,
          snapshot_sets-gathered.1,
        )

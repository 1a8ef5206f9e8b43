-- ===== src/Commands/Sets/Total.antt =====
-- The loops of the set commands on sets that stand for finite sets of texts: none panics.
use ultima.Base.{
  ℕ, ◌+◌, ◌≡◌, refl, ap, ◌∙◌, Bool, true, false, not, some, List, [], ◌∷◌, Bytes, length, All, map,
  arith, if◌then◌else◌,
}
use ultima.Base.Int.{pos}
use ultima.Base.Maps.{remove_key}
use ultima.Resp.{Value, int, arr}
use ultima.Types.Set.{MemberMap, IntSet, in_map, contains}
use ultima.Types.Set.Encoding.{IsShort, contains-has}
use ultima.Types.Set.Forms.{Stands}
use ultima.Types.Set.Adding.{with_member, set_add_lem}
use ultima.Types.Set.Removing.{set_remove_lem}
use ultima.Types.Set.Refines.{SetOp, sadd, srem, texts, answers}
use ultima.Types.Set.Members.{Listed, members-Listed}
use ultima.Commands.Multi.{count}
use ultima.Commands.Hash.{bool_int}
use ultima.Commands.Sets.{
  sadd_each, srem_each, SetRead, read_members, read_card, read_is_member, read_mis_member,
  set_read_reply, set_reply, flags,
}

count_step :
    (b : Bool) (n m : ℕ) (bs : List Bool)
    → m ≡ (if b then n + 1 else n) + count bs
    → m ≡ n + count (b ∷ bs)
unfolding count
count_step true n m bs h = omega (arith, h)
count_step false n m bs h = h

-- The set and the number that a loop ends with.
pub record Looped (ops : List SetOp) (l : MemberMap) (n : ℕ) (r : IntSet × ℕ) : Type 0 where
  pub stands : Stands r.0 (texts ops l)
  pub counts : r.1 ≡ n + count (answers ops l)

pub sadd_each_lem :
    (ms : List Bytes) (s : IntSet) (l : MemberMap) (n : ℕ)
    → All IsShort ms
    → Stands s l
    → (r : IntSet × ℕ) × (sadd_each ms s n ≡ some r) × Looped (map sadd ms) l n r
unfolding sadd_each texts answers count
sadd_each_lem [] s l n short st = ((s, n), refl, record { stands = st; counts = omega arith })
sadd_each_lem (m ∷ ms) s l n short st =
    let (s', e, st') = set_add_lem s l m short.0 st in
    let new = not (in_map l m) in
    let (r, e', looped) =
      sadd_each_lem ms s' (with_member l m) (if new then n + 1 else n) short.1 st' in
    (
      r,
      rw e e',
      record {
        stands = looped.stands;
        counts = count_step new n r.1 (answers (map sadd ms) (with_member l m)) looped.counts;
      },
    )

pub srem_each_lem :
    (ms : List Bytes) (s : IntSet) (l : MemberMap) (n : ℕ)
    → All IsShort ms
    → Stands s l
    → (r : IntSet × ℕ) × (srem_each ms s n ≡ some r) × Looped (map srem ms) l n r
unfolding srem_each texts answers count
srem_each_lem [] s l n short st = ((s, n), refl, record { stands = st; counts = omega arith })
srem_each_lem (m ∷ ms) s l n short st =
    let (s', e, st') = set_remove_lem s l m short.0 st in
    let there = in_map l m in
    let (r, e', looped) = srem_each_lem ms s' _ (if there then n + 1 else n) short.1 st' in
    (
      r,
      rw e e',
      record {
        stands = looped.stands;
        counts = count_step there n r.1 (answers (map srem ms) (remove_key l m)) looped.counts;
      },
    )

contains-in_map :
    (s : IntSet) (l : MemberMap) (m : Bytes)
    → IsShort m
    → Stands s l
    → contains s m ≡ some (in_map l m)
contains-in_map s l m short st = contains-has s m st.valid ∙ ap some (st.view m short)

abbrev pub IsReadShort : SetRead → Type 0
IsReadShort read_members = Unit
IsReadShort read_card = Unit
IsReadShort (read_is_member m) = IsShort m
IsReadShort (read_mis_member ms) = All IsShort ms

-- What a reading command replies about a finite set of texts.
abbrev pub RepliesFor : SetRead → MemberMap → Value → Type 0
RepliesFor read_members l v = (ms : List Bytes) × (v ≡ set_reply ms) × Listed ms l
RepliesFor read_card l v = v ≡ int (pos (length l))
RepliesFor (read_is_member m) l v = v ≡ int (bool_int (in_map l m))
RepliesFor (read_mis_member ms) l v = v ≡ arr (map (λ m. int (bool_int (in_map l m))) ms)

flags_lem :
    (ms : List Bytes) (s : IntSet) (l : MemberMap)
    → All IsShort ms
    → Stands s l
    → flags ms s ≡ some (map (λ m. int (bool_int (in_map l m))) ms)
unfolding flags
flags_lem [] s l short st = refl
flags_lem (m ∷ ms) s l short st =
    rw (contains-in_map s l m short.0 st, flags_lem ms s l short.1 st) refl

pub set_read_reply_lem :
    (rd : SetRead) (s : IntSet) (l : MemberMap)
    → IsReadShort rd
    → Stands s l
    → (v : Value) × (set_read_reply rd s ≡ some v) × RepliesFor rd l v
unfolding set_read_reply
set_read_reply_lem read_members s l short st =
    let (ms, e, listed) = members-Listed s l st in (set_reply ms, rw e refl, (ms, refl, listed))
set_read_reply_lem read_card s l short st = (_, refl, ap (λ n. int (pos n)) st.size)
set_read_reply_lem (read_is_member m) s l short st =
    (int (bool_int (in_map l m)), rw (contains-in_map s l m short st) refl, refl)
set_read_reply_lem (read_mis_member ms) s l short st =
    (arr (map (λ m. int (bool_int (in_map l m))) ms), rw (flags_lem ms s l short st) refl, refl)

-- ===== src/Samples/Values.antt =====
-- The theorems on collection values, notification flags and the broker, at concrete inputs.
use ultima.Base.{
  ℕ, ◌≡◌, refl, Bool, true, false, none, some, List, [], ◌∷◌, Bytes, codes, length, All,
  if◌then◌else◌, arith, ◌==◌,
}
use Prim.Native.Nat.{bit_and}
use ultima.Base.Int.{ℤ, pos, negsuc}
use ultima.Glob.{glob_match}
use ultima.Types.Hash.{Hash, new_hash, hash_get, hash_set, is_big, fields}
use ultima.Types.Hash.Encoding.{IsHash}
use ultima.Types.Hash.Refines.{
  HashOp, hset, hdel, calls, changes, hash_history_refines, new_hash-IsHash,
}
use ultima.Types.Hash.Order.{hash_set-order}
use ultima.Types.Set.{IntSet, new_set, contains, find, set_len, in_map}
use ultima.Types.Set.Encoding.{IsSetValue, IsShort}
use ultima.Types.Set.Refines.{SetOp, sadd, srem, texts, answers, op_text, set_history_refines}
use ultima.Types.Set.Find.{Located, find-Located}
use ultima.Commands.Notify.{parse_notify_flags, notify_flags_to_string, nf_all}
use ultima.Commands.Notify.Canonical.{parse-notify_flags_to_string}
use ultima.PubSub.{Sub, Broker, new_broker, targets, unsubscribe_all}
use ultima.PubSub.Registry.{subscribed}
use ultima.PubSub.Messages.{messages_to}
use ultima.PubSub.Clients.{Call, sub, psub, unsub_all, folded, on_channels, on_patterns, IsBroker}
use ultima.PubSub.Promises.{nobody, calls-IsBroker, left-unaddressed}

abbrev hash_ops : List HashOp
hash_ops = hset (codes "f") (codes "1") ∷ hset (codes "g") (codes "2") ∷ hdel (codes "f") ∷ []

hash_history_refines_example :
    (h : Hash) × (ultima.Types.Hash.Refines.calls hash_ops new_hash ≡ some h)
    × IsHash h
    × ((k : Bytes) → hash_get h k ≡ some (changes hash_ops (λ j. none) k))
hash_history_refines_example = hash_history_refines hash_ops

abbrev one_field : Hash
one_field = record {
  pairs = (record { field = codes "f"; value = codes "1" }) ∷ [];
  idx = none;
  bytes = 2;
}

set_one_field : hash_set new_hash (codes "f") (codes "1") ≡ some (one_field, true)
unfolding hash_set
set_one_field = refl

hash_set-order_example : (fields one_field ≡ codes "f" ∷ []) × (is_big one_field ≡ false)
unfolding fields
hash_set-order_example =
    hash_set-order new_hash one_field (codes "f") (codes "1") true new_hash-IsHash set_one_field

abbrev set_ops : List SetOp
set_ops = sadd (codes "7") ∷ sadd (codes "-3") ∷ sadd (codes "x") ∷ srem (codes "7") ∷ []

set_ops-IsShort : All (λ op. IsShort (op_text op)) set_ops
set_ops-IsShort = (omega arith, (omega arith, (omega arith, (omega arith, tt))))

set_history_refines_example :
    (s : IntSet) × (ultima.Types.Set.Refines.calls set_ops new_set ≡ some (s, answers set_ops []))
    × IsSetValue s
    × (contains s (codes "-3") ≡ some (in_map (texts set_ops []) (codes "-3")))
    × (set_len s ≡ length (texts set_ops []))
set_history_refines_example = set_history_refines set_ops (codes "-3") set_ops-IsShort (omega arith)

abbrev some_ints : List ℤ
some_ints = negsuc 4 ∷ pos 0 ∷ pos 8 ∷ []

find-Located_example :
    (r : ℕ × Bool) × (find some_ints (pos 8) ≡ some r) × Located some_ints (pos 8) r
find-Located_example =
    find-Located some_ints (pos 8) ((omega arith, (omega arith, tt)), ((omega arith, tt), (tt, tt)))

parse-notify_flags_to_string_example :
    parse_notify_flags (notify_flags_to_string 3)
    ≡ some (if bit_and 3 nf_all == nf_all then bit_and 3 8191 else 3)
parse-notify_flags_to_string_example =
    parse-notify_flags_to_string (codes "KE") 3 (unfold parse_notify_flags in refl)

abbrev broker_calls : List Call
broker_calls =
    sub (codes "news") (record { id = 1; conn = some 1 })
    ∷ psub (codes "n*") (record { id = 1; conn = some 1 })
    ∷ sub (codes "news") (record { id = 2; conn = none })
    ∷ unsub_all 2
    ∷ []

abbrev broker : Broker
broker = ultima.PubSub.Clients.calls broker_calls new_broker

calls-IsBroker_example :
    IsBroker broker
    × (subscribed broker.channels (codes "news") 1
        ≡ folded on_channels broker_calls nobody (codes "news") 1)
    × (subscribed broker.patterns (codes "news") 1
        ≡ folded on_patterns broker_calls nobody (codes "news") 1)
calls-IsBroker_example = calls-IsBroker broker_calls (codes "news") 1

left-unaddressed_example :
    messages_to
      (targets glob_match
        (ultima.PubSub.Clients.calls
          (sub (codes "a") (record { id = 2; conn = none }) ∷ [])
          (unsubscribe_all broker 1).0)
        (codes "news")
        (codes "hi"))
      1
    ≡ 0
left-unaddressed_example =
    left-unaddressed glob_match broker 1 (sub (codes "a") (record { id = 2; conn = none }) ∷ [])
      (codes "news") (codes "hi") (calls-IsBroker broker_calls (codes "news") 1).0 (refl, tt)

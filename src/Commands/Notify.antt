-- ===== src/Commands/Notify.antt =====
-- lib/commands/notify.go: the class letters of notify-keyspace-events as a uint64 bitmask, their canonical
-- form, the class of each event, and what notifyKeyspace publishes.
pub mod Canonical
use Prim.Native.Nat.{bit_and, bit_or}
use ultima.Base.{
  String, ℕ, ◌+◌, Bool, true, false, not, ◌||◌, Option, none, some, List, [], ◌∷◌, ◌++◌, Bytes,
  codes, bytes_eq, ◌==◌, if◌then◌else◌, ◌>>=◌,
}
use ultima.Base.Maps.{lookup_key}
use ultima.Numbers.{uint_to_str}

-- 1 << iota
abbrev pub nf_keyspace : ℕ
nf_keyspace = 1

abbrev pub nf_keyevent : ℕ
nf_keyevent = 2

abbrev pub nf_generic : ℕ
nf_generic = 4

abbrev pub nf_string : ℕ
nf_string = 8

abbrev pub nf_list : ℕ
nf_list = 16

abbrev pub nf_set : ℕ
nf_set = 32

abbrev pub nf_hash : ℕ
nf_hash = 64

abbrev pub nf_zset : ℕ
nf_zset = 128

abbrev pub nf_expired : ℕ
nf_expired = 256

abbrev pub nf_evicted : ℕ
nf_evicted = 512

abbrev pub nf_stream : ℕ
nf_stream = 1024

abbrev pub nf_key_miss : ℕ
nf_key_miss = 2048

abbrev pub nf_module : ℕ
nf_module = 4096

abbrev pub nf_new : ℕ
nf_new = 8192

-- The sum is the `|` of different bits.
abbrev pub nf_all : ℕ
nf_all =
    nf_generic + nf_string + nf_list + nf_set + nf_hash + nf_zset + nf_expired + nf_evicted
    + nf_stream + nf_module

-- The cases of the switch.
unfoldable pub class_of : ℕ → Option ℕ
class_of c =
    if c == b'A'
    then some nf_all
    else if c == b'g'
    then some nf_generic
    else if c == b'$'
    then some nf_string
    else if c == b'l'
    then some nf_list
    else if c == b's'
    then some nf_set
    else if c == b'h'
    then some nf_hash
    else if c == b'z'
    then some nf_zset
    else if c == b'x'
    then some nf_expired
    else if c == b'e'
    then some nf_evicted
    else if c == b'K'
    then some nf_keyspace
    else if c == b'E'
    then some nf_keyevent
    else if c == b't'
    then some nf_stream
    else if c == b'm'
    then some nf_key_miss
    else if c == b'd'
    then some nf_module
    else if c == b'n'
    then some nf_new
    else none

unfoldable pub parse_from : ℕ → Bytes → Option ℕ
unfolding class_of
parse_from flags [] = some flags
parse_from flags (c ∷ s) = (class_of c) >>= (λ bit. parse_from (bit_or flags bit) s)

-- parseNotifyFlags
unfoldable pub parse_notify_flags : Bytes → Option ℕ
unfolding parse_from
parse_notify_flags s = parse_from 0 s

abbrev pub has_bit : ℕ → ℕ → Bool
has_bit f bit = not (bit_and f bit == 0)

abbrev pub letter : ℕ → ℕ → ℕ → Bytes
letter f bit c = if has_bit f bit then c ∷ [] else []

unfoldable pub class_letters : ℕ → Bytes
class_letters f =
    if bit_and f nf_all == nf_all
    then b'A' ∷ []
    else letter f nf_generic b'g'
      ++ letter f nf_string b'$'
      ++ letter f nf_list b'l'
      ++ letter f nf_set b's'
      ++ letter f nf_hash b'h'
      ++ letter f nf_zset b'z'
      ++ letter f nf_expired b'x'
      ++ letter f nf_evicted b'e'
      ++ letter f nf_stream b't'
      ++ letter f nf_module b'd'
      ++ letter f nf_new b'n'

-- notifyFlagsToString
unfoldable pub notify_flags_to_string : ℕ → Bytes
unfolding class_letters
notify_flags_to_string f =
    class_letters f
    ++ letter f nf_keyspace b'K'
    ++ letter f nf_keyevent b'E'
    ++ letter f nf_key_miss b'm'

-- SetNotifyKeyspaceEvents on the stored flags, with what it returns.
unfoldable pub set_notify_keyspace_events : ℕ → Bytes → ℕ × Bool
unfolding parse_notify_flags
set_notify_keyspace_events stored v = elim (parse_notify_flags v) [
  | none ↦ (stored, false)
  | some f ↦ (f, true)
]

-- notifyEventClass, event by event.
abbrev pub events_with : List Bytes → ℕ → List (Bytes × ℕ)
events_with [] cls = []
events_with (e ∷ es) cls = (e, cls) ∷ events_with es cls

unfoldable pub notify_event_class : List (Bytes × ℕ)
notify_event_class =
    events_with
      (codes "del"
        ∷ codes "expire"
        ∷ codes "persist"
        ∷ codes "rename_from"
        ∷ codes "rename_to"
        ∷ codes "copy_to"
        ∷ codes "restore"
        ∷ [])
      nf_generic
    ++ events_with
        (codes "set"
          ∷ codes "setrange"
          ∷ codes "append"
          ∷ codes "incrby"
          ∷ codes "incrbyfloat"
          ∷ [])
        nf_string
    ++ events_with
        (codes "lpush"
          ∷ codes "rpush"
          ∷ codes "lpop"
          ∷ codes "rpop"
          ∷ codes "linsert"
          ∷ codes "lset"
          ∷ codes "lrem"
          ∷ codes "ltrim"
          ∷ [])
        nf_list
    ++ events_with (codes "hset" ∷ codes "hdel" ∷ codes "hincrby" ∷ codes "hincrbyfloat" ∷ [])
        nf_hash
    ++ events_with
        (codes "sadd"
          ∷ codes "srem"
          ∷ codes "spop"
          ∷ codes "sinterstore"
          ∷ codes "sunionstore"
          ∷ codes "sdiffstore"
          ∷ [])
        nf_set
    ++ events_with
        (codes "zadd"
          ∷ codes "zincr"
          ∷ codes "zrem"
          ∷ codes "zpopmin"
          ∷ codes "zpopmax"
          ∷ codes "zremrangebyrank"
          ∷ codes "zremrangebyscore"
          ∷ codes "zremrangebylex"
          ∷ codes "zinterstore"
          ∷ codes "zunionstore"
          ∷ codes "zdiffstore"
          ∷ [])
        nf_zset
    ++ (codes "expired", nf_expired) ∷ (codes "evicted", nf_evicted) ∷ []

-- One call of Broker.Publish.
pub record Publication : Type 0 where
  pub channel : Bytes
  pub message : Bytes

-- The two Sprintf formats.
unfoldable pub channel_name : String → ℕ → Bytes → Option Bytes
unfolding uint_to_str
channel_name prefix db rest =
    (uint_to_str db) >>= (λ d. some (codes prefix ++ d ++ codes "__:" ++ rest))

-- What notifyKeyspace publishes, in order; `none` is a panic.
unfoldable pub notify_keyspace : ℕ → ℕ → Bytes → Bytes → Option (List Publication)
unfolding notify_event_class channel_name lookup_key
notify_keyspace f db key event = elim (lookup_key notify_event_class event) [
  | none ↦ some []
  | some cls ↦
      if not (has_bit f (nf_keyspace + nf_keyevent)) || not (has_bit f cls)
      then some []
      else (published nf_keyspace (channel_name "__keyspace@" db key) event) >>= (λ ks.
          (published nf_keyevent (channel_name "__keyevent@" db event) key)
          >>= (λ es. some (ks ++ es)))
]
  where
    published : ℕ → Option Bytes → Bytes → Option (List Publication)
    published bit channel message =
        if has_bit f bit
        then channel >>= (λ c. some ((record { channel = c; message = message }) ∷ []))
        else some []

-- ===== src/PubSub.antt =====
-- lib/pubsub/broker.go: the registry of channel and pattern subscriptions and Publish. The mutex makes each
-- call one step. A Go map is a list without a repeated key, in the order in which the program happens
-- to walk it; what a Sub's Deliver enqueues on is its connection, and `none` a nil Deliver.
pub mod Registry
pub mod WellFormed
pub mod Messages
pub mod Clients
pub mod Promises
use ultima.Base.{
  ℕ, zero, suc, ◌+◌, Bool, true, false, not, ◌&&◌, ◌||◌, Option, none, some, List, [], ◌∷◌, ◌++◌,
  Bytes, codes, bytes_eq, bytes_lt, length, ◌==◌, if◌then◌else◌, map,
}
use ultima.Base.Maps.{lookup_key, put_key, remove_key}
use ultima.Resp.{Value, blob_string, push_frame, values}

pub record Sub : Type 0 where
  pub id : ℕ
  pub conn : Option ℕ

-- map[uint64]*Sub
abbrev pub Subs : Type 0
Subs = List Sub

-- map[string]map[uint64]*Sub
abbrev pub Registry : Type 0
Registry = List (Bytes × Subs)

pub record Broker : Type 0 where
  pub channels : Registry
  pub patterns : Registry

abbrev pub new_broker : Broker
new_broker = record { channels = []; patterns = [] }

unfoldable pub has_id : Subs → ℕ → Bool
has_id [] i = false
has_id (s ∷ l) i = s.id == i || has_id l i

unfoldable pub without_sub : Subs → ℕ → Subs
without_sub [] i = []
without_sub (s ∷ l) i = let rest = without_sub l i in if s.id == i then rest else s ∷ rest

-- m[s.ID] = s
unfoldable pub with_sub : Subs → Sub → Subs
unfolding without_sub
with_sub l s = s ∷ without_sub l s.id

abbrev pub or_empty : Option Subs → Subs
or_empty none = []
or_empty (some l) = l

-- The nil map of a missing name is empty.
abbrev pub subs_at : Registry → Bytes → Subs
subs_at m name = or_empty (lookup_key m name)

-- The registry after `m` became empty or not.
abbrev pub put_or_drop : Registry → Bytes → Subs → Registry
put_or_drop m name [] = remove_key m name
put_or_drop m name (s ∷ l) = put_key m name (s ∷ l)

-- The body of Subscribe and PSubscribe.
unfoldable pub add_sub : Registry → Bytes → Sub → Registry
unfolding lookup_key put_key with_sub
add_sub m name s = put_key m name (with_sub (subs_at m name) s)

-- The body of Unsubscribe and PUnsubscribe.
unfoldable pub drop_sub : Registry → Bytes → ℕ → Registry
unfolding lookup_key put_key remove_key without_sub
drop_sub m name i = elim (lookup_key m name) [
  | none ↦ m
  | some l ↦ put_or_drop m name (without_sub l i)
]

-- The loops of UnsubscribeAll: what is left, and the names that held the client.
abbrev pub keep_rest : Bytes → Subs → Registry → Registry
keep_rest name [] rest = rest
keep_rest name (s ∷ l) rest = (name, s ∷ l) ∷ rest

unfoldable pub drop_all : Registry → ℕ → Registry
unfolding has_id without_sub
drop_all [] i = []
drop_all ((name, l) ∷ m) i =
    let rest = drop_all m i in
    if has_id l i then keep_rest name (without_sub l i) rest else (name, l) ∷ rest

unfoldable pub names_with : Registry → ℕ → List Bytes
unfolding has_id
names_with [] i = []
names_with ((name, l) ∷ m) i = let rest = names_with m i in if has_id l i then name ∷ rest else rest

-- sort.Strings, and sort.Slice by a text.
unfoldable pub insert_by {ℓ} : {A : Type ℓ} → (A → Bytes) → A → List A → List A
unfolding bytes_lt
insert_by key x [] = x ∷ []
insert_by key x (y ∷ ys) =
    let rest = insert_by key x ys in if bytes_lt (key y) (key x) then y ∷ rest else x ∷ y ∷ ys

unfoldable pub sort_by {ℓ} : {A : Type ℓ} → (A → Bytes) → List A → List A
unfolding insert_by
sort_by key [] = []
sort_by key (x ∷ xs) = insert_by key x (sort_by key xs)

unfoldable pub sort_strings : List Bytes → List Bytes
unfolding sort_by
sort_strings = sort_by (λ s. s)

unfoldable pub subscribe : Broker → Bytes → Sub → Broker
unfolding add_sub
subscribe b channel s = record b { channels = add_sub b.channels channel s }

unfoldable pub unsubscribe : Broker → Bytes → ℕ → Broker
unfolding drop_sub
unsubscribe b channel i = record b { channels = drop_sub b.channels channel i }

unfoldable pub psubscribe : Broker → Bytes → Sub → Broker
unfolding add_sub
psubscribe b pattern s = record b { patterns = add_sub b.patterns pattern s }

unfoldable pub punsubscribe : Broker → Bytes → ℕ → Broker
unfolding drop_sub
punsubscribe b pattern i = record b { patterns = drop_sub b.patterns pattern i }

-- UnsubscribeAll, with the channels and patterns removed.
unfoldable pub unsubscribe_all : Broker → ℕ → Broker × List Bytes × List Bytes
unfolding drop_all names_with sort_strings
unsubscribe_all b i = (
  record { channels = drop_all b.channels i; patterns = drop_all b.patterns i },
  sort_strings (names_with b.channels i),
  sort_strings (names_with b.patterns i),
)

-- A recipient and what it is sent.
pub record Target : Type 0 where
  pub sub : Sub
  pub frame : Value

pub data Delivery : Type 0 where
  to_self : Value → Delivery
  to_conn : ℕ → Value → Delivery

-- The closure `deliver`; `has_self` says that self is not nil.
unfoldable pub deliver : ℕ → Bool → Target → List Delivery
deliver self_id has_self t =
    if t.sub.id == self_id
    then (if has_self then to_self t.frame ∷ [] else [])
    else elim t.sub.conn [ none ↦ [] | some c ↦ to_conn c t.frame ∷ [] ]

unfoldable pub deliver_all : ℕ → Bool → List Target → List Delivery
unfolding deliver
deliver_all self_id has_self [] = []
deliver_all self_id has_self (t ∷ ts) =
    deliver self_id has_self t ++ deliver_all self_id has_self ts

abbrev pub addressed : Subs → Value → List Target
addressed [] v = []
addressed (s ∷ l) v = (record { sub = s; frame = v }) ∷ addressed l v

-- The patterns that match.
unfoldable pub pattern_hits : (Bytes → Bytes → Bool) → Registry → Bytes → Registry
pattern_hits matches [] channel = []
pattern_hits matches ((p, l) ∷ m) channel =
    let rest = pattern_hits matches m channel in if matches p channel then (p, l) ∷ rest else rest

abbrev pub pmessages : Registry → Bytes → Bytes → List Target
pmessages [] channel payload = []
pmessages ((p, l) ∷ m) channel payload =
    addressed l (
      push_frame (
        values (
          blob_string (codes "pmessage")
          ∷ blob_string p
          ∷ blob_string channel
          ∷ blob_string payload
          ∷ [])))
    ++ pmessages m channel payload

-- The snapshot of Publish: the subscribers of the channel, then those of the patterns in their order.
unfoldable pub targets : (Bytes → Bytes → Bool) → Broker → Bytes → Bytes → List Target
unfolding pattern_hits sort_by lookup_key
targets matches b channel payload =
    addressed (subs_at b.channels channel) (
      push_frame
        (values (blob_string (codes "message") ∷ blob_string channel ∷ blob_string payload ∷ [])))
    ++ pmessages (sort_by (λ e. e.0) (pattern_hits matches b.patterns channel)) channel payload

-- Publish: what is delivered, and the count that it returns.
unfoldable pub publish :
    (Bytes → Bytes → Bool) → Broker → Bytes → Bytes → ℕ → Bool → List Delivery × ℕ
unfolding targets deliver_all
publish matches b channel payload self_id has_self =
    let ts = targets matches b channel payload in (deliver_all self_id has_self ts, length ts)

-- Channels, with "" for all.
unfoldable pub names_like : (Bytes → Bytes → Bool) → Registry → Bytes → List Bytes
names_like matches [] pattern = []
names_like matches ((name, l) ∷ m) pattern =
    let rest = names_like matches m pattern in
    if length pattern == 0 || matches pattern name then name ∷ rest else rest

unfoldable pub channels_like : (Bytes → Bytes → Bool) → Broker → Bytes → List Bytes
unfolding names_like sort_strings
channels_like matches b pattern = sort_strings (names_like matches b.channels pattern)

unfoldable pub num_sub : Broker → List Bytes → List ℕ
unfolding lookup_key
num_sub b = map (λ channel. length (subs_at b.channels channel))

unfoldable pub num_pat : Broker → ℕ
num_pat b = length b.patterns

unfoldable pub num_channels : Broker → ℕ
num_channels b = length b.channels

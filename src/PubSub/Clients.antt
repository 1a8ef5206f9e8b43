-- ===== src/PubSub/Clients.antt =====
-- The broker over any sequence of calls: who is subscribed to what, and that a client that is gone is
-- addressed no more.
use ultima.Base.{ℕ, ◌≡◌, refl, ◌∙◌, Bool, not, ◌&&◌, ◌||◌, List, [], ◌∷◌, Bytes, bytes_eq, ◌==◌}
use ultima.PubSub.{Sub, Broker, subscribe, unsubscribe, psubscribe, punsubscribe, unsubscribe_all}
use ultima.PubSub.Registry.{
  IsRegistry, subscribed, subscribed-add, subscribed-drop, subscribed-drop_all,
}
use ultima.PubSub.WellFormed.{add_sub-IsRegistry, drop_sub-IsRegistry, drop_all-IsRegistry}

pub data Call : Type 0 where
  sub psub : Bytes → Sub → Call
  unsub punsub : Bytes → ℕ → Call
  unsub_all : ℕ → Call

unfoldable pub call : Call → Broker → Broker
unfolding subscribe unsubscribe psubscribe punsubscribe unsubscribe_all
call (sub channel s) b = subscribe b channel s
call (psub pattern s) b = psubscribe b pattern s
call (unsub channel i) b = unsubscribe b channel i
call (punsub pattern i) b = punsubscribe b pattern i
call (unsub_all i) b = (unsubscribe_all b i).0

unfoldable pub calls : List Call → Broker → Broker
unfolding call
calls [] b = b
calls (c ∷ cs) b = calls cs (call c b)

-- The registrations, as relations of names and clients.
abbrev pub Relation : Type 0
Relation = Bytes → ℕ → Bool

abbrev pub on_channels : Call → Relation → Relation
on_channels (sub channel s) r c i = bytes_eq channel c && s.id == i || r c i
on_channels (unsub channel k) r c i = not (bytes_eq channel c && k == i) && r c i
on_channels (unsub_all k) r c i = not (k == i) && r c i
on_channels (psub pattern s) r c i = r c i
on_channels (punsub pattern k) r c i = r c i

abbrev pub on_patterns : Call → Relation → Relation
on_patterns (psub pattern s) r c i = bytes_eq pattern c && s.id == i || r c i
on_patterns (punsub pattern k) r c i = not (bytes_eq pattern c && k == i) && r c i
on_patterns (unsub_all k) r c i = not (k == i) && r c i
on_patterns (sub channel s) r c i = r c i
on_patterns (unsub channel k) r c i = r c i

abbrev pub folded : (Call → Relation → Relation) → List Call → Relation → Relation
folded step [] r = r
folded step (c ∷ cs) r = folded step cs (step c r)

pub record IsBroker (b : Broker) : Type 0 where
  pub of_channels : IsRegistry b.channels
  pub of_patterns : IsRegistry b.patterns

pub call-IsBroker : (c : Call) (b : Broker) → IsBroker b → IsBroker (call c b)
unfolding call subscribe unsubscribe psubscribe punsubscribe unsubscribe_all
call-IsBroker (sub channel s) b w = record {
  of_channels = add_sub-IsRegistry b.channels channel s w.of_channels;
  of_patterns = w.of_patterns;
}
call-IsBroker (psub pattern s) b w = record {
  of_channels = w.of_channels;
  of_patterns = add_sub-IsRegistry b.patterns pattern s w.of_patterns;
}
call-IsBroker (unsub channel k) b w = record {
  of_channels = drop_sub-IsRegistry b.channels channel k w.of_channels;
  of_patterns = w.of_patterns;
}
call-IsBroker (punsub pattern k) b w = record {
  of_channels = w.of_channels;
  of_patterns = drop_sub-IsRegistry b.patterns pattern k w.of_patterns;
}
call-IsBroker (unsub_all k) b w = record {
  of_channels = drop_all-IsRegistry b.channels k w.of_channels;
  of_patterns = drop_all-IsRegistry b.patterns k w.of_patterns;
}

pub call-channels :
    (c : Call) (b : Broker)
    → IsBroker b
    → (name : Bytes) (i : ℕ)
    → subscribed (call c b).channels name i ≡ on_channels c (subscribed b.channels) name i
unfolding call subscribe unsubscribe psubscribe punsubscribe unsubscribe_all
call-channels (sub channel s) b w name i = subscribed-add b.channels channel name s i
call-channels (psub pattern s) b w name i = refl
call-channels (unsub channel k) b w name i = subscribed-drop b.channels channel name k i
call-channels (punsub pattern k) b w name i = refl
call-channels (unsub_all k) b w name i = subscribed-drop_all b.channels k name i w.of_channels.0

pub call-patterns :
    (c : Call) (b : Broker)
    → IsBroker b
    → (name : Bytes) (i : ℕ)
    → subscribed (call c b).patterns name i ≡ on_patterns c (subscribed b.patterns) name i
unfolding call subscribe unsubscribe psubscribe punsubscribe unsubscribe_all
call-patterns (sub channel s) b w name i = refl
call-patterns (psub pattern s) b w name i = subscribed-add b.patterns pattern name s i
call-patterns (unsub channel k) b w name i = refl
call-patterns (punsub pattern k) b w name i = subscribed-drop b.patterns pattern name k i
call-patterns (unsub_all k) b w name i = subscribed-drop_all b.patterns k name i w.of_patterns.0

-- The steps look at one name and one client only.
on_channels_congr :
    (c : Call) (r q : Relation) (name : Bytes) (i : ℕ)
    → r name i ≡ q name i
    → on_channels c r name i ≡ on_channels c q name i
on_channels_congr (sub channel s) r q name i e = rw e refl
on_channels_congr (psub pattern s) r q name i e = e
on_channels_congr (unsub channel k) r q name i e = rw e refl
on_channels_congr (punsub pattern k) r q name i e = e
on_channels_congr (unsub_all k) r q name i e = rw e refl

on_patterns_congr :
    (c : Call) (r q : Relation) (name : Bytes) (i : ℕ)
    → r name i ≡ q name i
    → on_patterns c r name i ≡ on_patterns c q name i
on_patterns_congr (sub channel s) r q name i e = e
on_patterns_congr (psub pattern s) r q name i e = rw e refl
on_patterns_congr (unsub channel k) r q name i e = e
on_patterns_congr (punsub pattern k) r q name i e = rw e refl
on_patterns_congr (unsub_all k) r q name i e = rw e refl

folded_congr :
    (step : Call → Relation → Relation)
    → ((c : Call) (r q : Relation) (name : Bytes) (i : ℕ)
        → r name i ≡ q name i
        → step c r name i ≡ step c q name i)
    → (cs : List Call) (r q : Relation) (name : Bytes) (i : ℕ) → r name i ≡ q name i
    → folded step cs r name i ≡ folded step cs q name i
folded_congr step local [] r q name i e = e
folded_congr step local (c ∷ cs) r q name i e =
    folded_congr step local cs (step c r) (step c q) name i (local c r q name i e)

pub calls_lem :
    (cs : List Call) (b : Broker) (name : Bytes) (i : ℕ)
    → IsBroker b
    → IsBroker (calls cs b)
      × (subscribed (calls cs b).channels name i
          ≡ folded on_channels cs (subscribed b.channels) name i)
      × (subscribed (calls cs b).patterns name i
          ≡ folded on_patterns cs (subscribed b.patterns) name i)
unfolding calls
calls_lem [] b name i w = (w, refl, refl)
calls_lem (c ∷ cs) b name i w =
    let (w', chans, pats) = calls_lem cs (call c b) name i (call-IsBroker c b w) in
    (
      w',
      chans ∙ folded_congr on_channels on_channels_congr cs _ _ name i (call-channels c b w name i),
      pats ∙ folded_congr on_patterns on_patterns_congr cs _ _ name i (call-patterns c b w name i),
    )

-- ===== src/PubSub/Promises.antt =====
-- What the broker promises after any sequence of calls: the registrations, the messages of Publish, and
-- silence for a client that has left.
use ultima.Base.{ℕ, ◌≡◌, refl, ◌∙◌, Bool, false, List, [], ◌∷◌, Bytes, ◌==◌, All, arith}
use ultima.Base.Maps.{lookup_key}
use ultima.PubSub.{Broker, new_broker, unsubscribe_all, targets, has_id}
use ultima.PubSub.Registry.{subscribed}
use ultima.PubSub.Messages.{messages_to, messages_to-targets, matching_none}
use ultima.PubSub.Clients.{
  Call, sub, psub, unsub, punsub, unsub_all, call, calls, Relation, on_channels, on_patterns,
  folded, IsBroker, call-IsBroker, call-channels, call-patterns, calls_lem,
}

abbrev pub nobody : Relation
nobody name i = false

new_broker-IsBroker : IsBroker new_broker
new_broker-IsBroker = record { of_channels = (tt, tt); of_patterns = (tt, tt) }

-- After any sequence of calls on a new broker no name stands twice in a registry, no name is
-- without a subscriber and no client stands twice under a name, and the subscriptions of every
-- client to channels and patterns are those of the two relations that the calls describe.
pub calls-IsBroker :
    (cs : List Call) (name : Bytes) (i : ℕ)
    → IsBroker (calls cs new_broker)
      × (subscribed (calls cs new_broker).channels name i ≡ folded on_channels cs nobody name i)
      × (subscribed (calls cs new_broker).patterns name i ≡ folded on_patterns cs nobody name i)
unfolding has_id lookup_key
calls-IsBroker cs name i = calls_lem cs new_broker name i new_broker-IsBroker

-- A call that does not subscribe the client.
abbrev pub Spares : ℕ → Call → Type 0
Spares k (sub channel s) = (s.id == k) ≡ false
Spares k (psub pattern s) = (s.id == k) ≡ false
Spares k (unsub channel i) = Unit
Spares k (punsub pattern i) = Unit
Spares k (unsub_all i) = Unit

still_gone :
    (k : ℕ) (c : Call) (r : Relation) (name : Bytes)
    → Spares k c
    → r name k ≡ false
    → (on_channels c r name k ≡ false) × (on_patterns c r name k ≡ false)
still_gone k (sub channel s) r name h e = (ground arith, e)
still_gone k (psub pattern s) r name h e = (e, ground arith)
still_gone k (unsub channel i) r name h e = (ground arith, e)
still_gone k (punsub pattern i) r name h e = (e, ground arith)
still_gone k (unsub_all i) r name h e = (ground arith, ground arith)

folded_gone :
    (k : ℕ) (cs : List Call) (r q : Relation) (name : Bytes)
    → All (Spares k) cs
    → r name k ≡ false
    → q name k ≡ false
    → (folded on_channels cs r name k ≡ false) × (folded on_patterns cs q name k ≡ false)
folded_gone k [] r q name h e f = (e, f)
folded_gone k (c ∷ cs) r q name h e f =
    folded_gone k cs (on_channels c r) (on_patterns c q) name h.1 (still_gone k c r name h.0 e).0
      (still_gone k c q name h.0 f).1

left_silent :
    (b : Broker) (k : ℕ) (cs : List Call) (name : Bytes)
    → IsBroker b
    → All (Spares k) cs
    → IsBroker (calls cs (call (unsub_all k) b))
      × (subscribed (calls cs (call (unsub_all k) b)).channels name k ≡ false)
      × (subscribed (calls cs (call (unsub_all k) b)).patterns name k ≡ false)
left_silent b k cs name w spares =
    let w₁ = call-IsBroker (unsub_all k) b w in
    let (w₂, chans, pats) = calls_lem cs (call (unsub_all k) b) name k w₁ in
    let gone =
      folded_gone k cs _ _ name spares (call-channels (unsub_all k) b w name k ∙ ground arith)
        (call-patterns (unsub_all k) b w name k ∙ ground arith) in
    (w₂, chans ∙ gone.0, pats ∙ gone.1)

-- After UnsubscribeAll of a client, and any further calls that do not subscribe that client again,
-- Publish on any channel addresses no message to it.
pub left-unaddressed :
    (matches : Bytes → Bytes → Bool) (b : Broker) (k : ℕ) (cs : List Call) (channel payload : Bytes)
    → IsBroker b
    → All (Spares k) cs
    → messages_to (targets matches (calls cs (unsubscribe_all b k).0) channel payload) k ≡ 0
unfolding call
left-unaddressed matches b k cs channel payload w spares =
    let (w₂, chan, _) = left_silent b k cs channel w spares in
    messages_to-targets matches _ channel payload k w₂.of_channels w₂.of_patterns
    ∙ rw
        (
          chan,
          matching_none matches _ channel k w₂.of_patterns.0
              (λ p. (left_silent b k cs p w spares).2),
        )
        refl

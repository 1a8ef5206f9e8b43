-- ===== src/Commands/Expire/Effect.antt =====
-- What the expiry commands do to the keyspace, each against a specification on the visible content of its
-- key, and how TTL answers what EXPIRE set.
use ultima.Base.{ℕ, refl, Bool, Option, none, some, [], ◌∷◌, Bytes, codes, if◌then◌else◌, arith}
use ultima.Base.Int.{ℤ, pos, negsuc, leb_ℤ, eqb_ℤ}
use ultima.Platform.{Platform}
use ultima.Resp.{int}
use ultima.Commands.{Reply, quiet}
use ultima.Shard.{Shard}
use ultima.Shard.View.{Content, view}
use ultima.Commands.Outcome.{Outcome, branch, kept, touched, deleted, scheduled, after_lookup}
use ultima.Commands.Expire.{
  ExpireFlags, expire_blocked, expire_found, expire_task, ttl_value, ttl_found, ttl_task,
  persist_found, persist_task,
}

module _ ⦃P : Platform⦄ where
  abbrev pub expire_spec : ExpireFlags → ℤ → ℤ → Option Content → Reply × Option Content
  expire_spec f at now none = (quiet (int (pos 0)), none)
  expire_spec f at now (some c) =
      if expire_blocked f at c.expire_at_ms
      then (quiet (int (pos 0)), some c)
      else if leb_ℤ at now
      then ((int (pos 1), codes "del" ∷ []), none)
      else ((int (pos 1), codes "expire" ∷ []), some (record c { expire_at_ms = at }))

  abbrev pub ttl_spec : Bool → ℤ → Option Content → Reply × Option Content
  ttl_spec ms now none = (quiet (int (negsuc 1)), none)
  ttl_spec ms now (some c) = (quiet (int (ttl_value ms now c.expire_at_ms)), some c)

  abbrev pub persist_spec : Option Content → Reply × Option Content
  persist_spec none = (quiet (int (pos 0)), none)
  persist_spec (some c) =
      if eqb_ℤ c.expire_at_ms (pos 0)
      then (quiet (int (pos 0)), some c)
      else ((int (pos 1), codes "persist" ∷ []), some (record c { expire_at_ms = pos 0 }))

  module _ (s : Shard) (db : ℕ) (key : Bytes) where
    -- The EXPIRE family: a blocked or missing key is unchanged, a time in the past deletes the key, and
    -- any other time becomes its expiry.
    pub expire_task-Outcome :
        (f : ExpireFlags) (at : ℤ)
        → Outcome s db key (expire_spec f at s.now (view s db key)) (expire_task f at db key s)
    unfolding expire_task expire_found
    expire_task-Outcome f at =
        after_lookup s db key (expire_found f at db key) (expire_spec f at s.now)
          (λ t h n. kept t db key _ none h)
          (λ e live h.
            branch s db key (expire_blocked f at e.expire_at_ms) (λ _. kept s db key _ _ h)
              (λ _.
                branch s db key (leb_ℤ at s.now) (λ _. deleted s db key _)
                  (λ b.
                    scheduled s db key _ _ _
                      (touched s db key _ (record e { expire_at_ms = at }) _ (ground (arith, b))))))

    -- TTL and PTTL report the expiry that is visible and change no key.
    pub ttl_task-Outcome :
        (ms : Bool) → Outcome s db key (ttl_spec ms s.now (view s db key)) (ttl_task ms db key s)
    unfolding ttl_task ttl_found
    ttl_task-Outcome ms =
        after_lookup s db key (ttl_found ms) (ttl_spec ms s.now) (λ t h n. kept t db key _ none h)
          (λ e live h. kept s db key _ _ h)

    -- PERSIST removes the expiry, if there is one, and nothing else.
    pub persist_task-Outcome :
        Outcome s db key (persist_spec (view s db key)) (persist_task db key s)
    unfolding persist_task persist_found
    persist_task-Outcome =
        after_lookup s db key (persist_found db key) persist_spec (λ t h n. kept t db key _ none h)
          (λ e live h.
            branch s db key (eqb_ℤ e.expire_at_ms (pos 0)) (λ _. kept s db key _ _ h)
              (λ _. touched s db key _ (record e { expire_at_ms = pos 0 }) _ refl))

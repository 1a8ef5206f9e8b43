-- ===== src/Commands/Outcome.antt =====
-- What a closure on a key promises, seen from outside: its result and the key's new content are those
-- of a specification that knows only the key's old content, and every other key is as before.
use ultima.Base.{
  ℕ, ◌≡◌, refl, ap, ◌∙◌, inl, inr, Bool, true, false, Option, none, some, Bytes, if◌then◌else◌,
  Bool-cases,
}
use ultima.Platform.{Platform}
use ultima.Shard.{Shard, Ent, same_key, is_expired, lookup, store, delete, touch, push_expire}
use ultima.Shard.Table.{same_key_iff}
use ultima.Shard.View.{
  now-store, now-touch, now-delete, now-push_expire, Content, content, live_content, view,
  view-store, view-touch, view-delete, view-push_expire, Looked, hidden, visible, lookup-Looked,
}

module _ ⦃P : Platform⦄ where
  open P use {search}

  pub record Outcome {A : Type 0} (s : Shard) (db : ℕ) (key : Bytes) (spec : A × Option Content)
      (r : A × Shard) : Type 0 where
    pub replies : r.0 ≡ spec.0
    pub views :
        (d : ℕ) (j : Bytes)
        → view r.1 d j ≡ (if same_key (db, key) (d, j) then spec.1 else view s d j)
    pub clock : r.1.now ≡ s.now

  module _ {A : Type 0} (s : Shard) (db : ℕ) (key : Bytes) (a : A) where
    -- The content of the key stays `c`.
    pub kept : (c : Option Content) → view s db key ≡ c → Outcome s db key (a, c) (a, s)
    kept c h = record {
      replies = refl;
      views = λ d j. elim (Bool-cases (same_key (db, key) (d, j))) [
        | inl p ↦ let (pd, pk) = (same_key_iff db d key j).0 p in rw p (rw (← pd, ← pk) h)
        | inr p ↦ rw p
      ];
      clock = refl;
    }

    -- A change that no client sees.
    pub unseen :
        (t : Shard)
        → ((d : ℕ) (j : Bytes) → view t d j ≡ view s d j)
        → t.now ≡ s.now
        → Outcome s db key (a, view s db key) (a, t)
    unseen t h n =
        let o = kept (view s db key) refl in
        record { replies = refl; views = λ d j. h d j ∙ o.views d j; clock = n }

    pub stored :
        (e : Ent) (c : Option Content)
        → live_content s.now (content e) ≡ c
        → Outcome s db key (a, c) (a, store s db key e)
    stored e c h = record {
      replies = refl;
      views = λ d j. rw (← h) (view-store s db d key j e);
      clock = now-store s db key e;
    }

    pub touched :
        (e : Ent) (c : Option Content)
        → live_content s.now (content e) ≡ c
        → Outcome s db key (a, c) (a, touch s db key e)
    touched e c h = record {
      replies = refl;
      views = λ d j. rw (← h) (view-touch s db d key j e);
      clock = now-touch s db key e;
    }

    pub deleted : Outcome s db key (a, none) (a, (delete s db key).1)
    deleted = record {
      replies = refl;
      views = λ d j. view-delete s db d key j;
      clock = now-delete s db key;
    }

    pub scheduled :
        (t : Shard) (spec : A × Option Content)
        → Outcome s db key spec (a, t)
        → Outcome s db key spec (a, push_expire t db key)
    scheduled t spec h = record {
      replies = h.replies;
      views = λ d j. view-push_expire t db d key j ∙ h.views d j;
      clock = now-push_expire t db key ∙ h.clock;
    }

    -- A store that may schedule the expiry of what it stored.
    pub written :
        (b : Bool) (e : Ent) (c : Option Content)
        → live_content s.now (content e) ≡ c
        → Outcome s db key
            (a, c)
            (a, if b then push_expire (store s db key e) db key else store s db key e)
    written true e c h = scheduled _ _ (stored e c h)
    written false e c h = stored e c h

  -- A test that the closure and its specification share.
  pub branch :
      {A : Type 0} (s : Shard) (db : ℕ) (key : Bytes) (b : Bool) {x y : A × Option Content}
      {p q : A × Shard}
      → (b ≡ true → Outcome s db key x p)
      → (b ≡ false → Outcome s db key y q)
      → Outcome s db key (if b then x else y) (if b then p else q)
  branch s db key true f g = f refl
  branch s db key false f g = g refl

  -- A closure that starts with a lookup is described by its two continuations.
  module _ {A : Type 0} (s : Shard) (db : ℕ) (key : Bytes) (f : Option Ent → Shard → A × Shard)
      (spec : Option Content → A × Option Content) where
    by_outcome :
        (r : Option Ent × Shard)
        → Looked s db key r
        → ((t : Shard)
            → view t db key ≡ none
            → t.now ≡ s.now
            → Outcome t db key (spec none) (f none t))
        → ((e : Ent)
            → is_expired e s.now ≡ false
            → view s db key ≡ some (content e)
            → Outcome s db key (spec (some (content e))) (f (some e) s))
        → Outcome s db key (spec (view s db key)) (f r.0 r.1)
    by_outcome _ (hidden t h n same) absent present =
        let o = absent t (same db key ∙ h) n in
        rw h (record {
          replies = o.replies;
          views = λ d j.
              o.views d j
              ∙ ap (λ v. if same_key (db, key) (d, j) then (spec none).1 else v) (same d j);
          clock = o.clock ∙ n;
        })
    by_outcome _ (visible e p b h) absent present = rw h (present e b h)

    pub after_lookup :
        ((t : Shard)
          → view t db key ≡ none
          → t.now ≡ s.now
          → Outcome t db key (spec none) (f none t))
        → ((e : Ent)
            → is_expired e s.now ≡ false
            → view s db key ≡ some (content e)
            → Outcome s db key (spec (some (content e))) (f (some e) s))
        → Outcome s db key (spec (view s db key)) (f (lookup s db key).0 (lookup s db key).1)
    after_lookup = by_outcome (lookup s db key) (lookup-Looked s db key)

-- ===== src/Shard/View.antt =====
-- What a client can see of a key: its value and expiry, unless it is missing or has expired; and what
-- each helper of the shard does to that.
use ultima.Base.{
  ℕ, ◌≡◌, refl, sym, ap, ◌∙◌, inl, inr, Bool, true, false, ◌&&◌, Option, none, some, Bytes, ◌==◌,
  if◌then◌else◌, arith, Bool-cases, Option-cases,
}
use ultima.Base.Int.{ℤ, pos, ltb_ℤ, leb_ℤ}
use ultima.Platform.{Platform, Payload}
use ultima.Shard.{
  Shard, Ent, same_key, expire_entry, is_expired, lookup, store, delete, touch, flush_db,
  push_expire, update,
}
use ultima.Shard.Table.{same_key_iff, search-update_insert, search-update_remove}
use ultima.Shard.Lookup.{lookup_cases}

module _ ⦃P : Platform⦄ where
  open P use {Obj, search, search-empty}

  pub record Content : Type 0 where
    pub payload : Payload Obj
    pub expire_at_ms : ℤ

  abbrev pub content : Ent → Content
  content e = record { payload = e.payload; expire_at_ms = e.expire_at_ms }

  -- An expiry that has passed.
  abbrev pub has_passed : ℤ → ℤ → Bool
  has_passed at now = ltb_ℤ (pos 0) at && leb_ℤ at now

  abbrev pub live_content : ℤ → Content → Option Content
  live_content now c = if has_passed c.expire_at_ms now then none else some c

  abbrev pub live_entry : ℤ → Option Ent → Option Content
  live_entry now none = none
  live_entry now (some e) = live_content now (content e)

  unfoldable pub view : Shard → ℕ → Bytes → Option Content
  view s db k = live_entry s.now (search (s.tab db) k)

  abbrev pub is_some : {A : Type 0} → Option A → Bool
  is_some none = false
  is_some (some a) = true

  pub view-insert :
      (s t : Shard) (db d : ℕ) (k j : Bytes) (e : Ent)
      → t.tab ≡ update s.tab db (P.insert (s.tab db) k e)
      → t.now ≡ s.now
      → view t d j
        ≡ (if same_key (db, k) (d, j) then live_content s.now (content e) else view s d j)
  unfolding view
  view-insert s t db d k j e h n =
      let found = ap (λ m. search (m d) j) h ∙ search-update_insert s.tab db d k j e in
      rw n (rw found (ground arith))

  view-remove :
      (s t : Shard) (db d : ℕ) (k j : Bytes)
      → t.tab ≡ update s.tab db (P.remove (s.tab db) k)
      → t.now ≡ s.now
      → view t d j ≡ (if same_key (db, k) (d, j) then none else view s d j)
  unfolding view
  view-remove s t db d k j h n =
      let found = ap (λ m. search (m d) j) h ∙ search-update_remove s.tab db d k j in
      rw n (rw found (ground arith))

  view_missing : (s : Shard) (db : ℕ) (k : Bytes) → search (s.tab db) k ≡ none → view s db k ≡ none
  unfolding view
  view_missing s db k h = rw h

  view_stale :
      (s : Shard) (db : ℕ) (k : Bytes) (e : Ent)
      → search (s.tab db) k ≡ some e
      → is_expired e s.now ≡ true
      → view s db k ≡ none
  unfolding view is_expired
  view_stale s db k e h b = rw h (rw b)

  view_live :
      (s : Shard) (db : ℕ) (k : Bytes) (e : Ent)
      → search (s.tab db) k ≡ some e
      → is_expired e s.now ≡ false
      → view s db k ≡ some (content e)
  unfolding view is_expired
  view_live s db k e h b = rw h (rw b)

  -- A key that is not visible stays so when its entry is removed.
  view-expire_entry :
      (s : Shard) (db d : ℕ) (k j : Bytes) (e : Ent)
      → search (s.tab db) k ≡ some e
      → is_expired e s.now ≡ true
      → view (expire_entry s db k e) d j ≡ view s d j
  view-expire_entry s db d k j e h b =
      let gone =
        view-remove s (expire_entry s db k e) db d k j (unfold expire_entry in refl)
          (unfold expire_entry in refl) in
      elim (Bool-cases (same_key (db, k) (d, j))) [
        | inl p ↦
            let (pd, pk) = (same_key_iff db d k j).0 p in
            rw gone (rw p (rw (← pd, ← pk) (sym (view_stale s db k e h b))))
        | inr p ↦ rw gone (rw p)
      ]

  pub view-lookup : (s : Shard) (db d : ℕ) (k j : Bytes) → view (lookup s db k).1 d j ≡ view s d j
  view-lookup s db d k j = elim (lookup_cases s db k) [
    | inl m ↦ rw m.outcome
    | inr (inl (e, x)) ↦ rw x.outcome (view-expire_entry s db d k j e x.present x.expired)
    | inr (inr (e, l)) ↦ rw l.outcome
  ]

  pub now-lookup : (s : Shard) (db : ℕ) (k : Bytes) → (lookup s db k).1.now ≡ s.now
  now-lookup s db k = elim (lookup_cases s db k) [
    | inl m ↦ rw m.outcome
    | inr (inl (e, x)) ↦ rw x.outcome (unfold expire_entry in refl)
    | inr (inr (e, l)) ↦ rw l.outcome
  ]

  now-expire_entry :
      (s : Shard) (db : ℕ) (k : Bytes) (e : Ent) → (expire_entry s db k e).now ≡ s.now
  unfolding expire_entry
  now-expire_entry s db k e = refl

  pub now-store : (s : Shard) (db : ℕ) (k : Bytes) (e : Ent) → (store s db k e).now ≡ s.now
  unfolding store
  now-store s db k e = refl

  pub now-touch : (s : Shard) (db : ℕ) (k : Bytes) (e : Ent) → (touch s db k e).now ≡ s.now
  unfolding touch
  now-touch s db k e = refl

  pub now-push_expire : (s : Shard) (db : ℕ) (k : Bytes) → (push_expire s db k).now ≡ s.now
  now-push_expire s db k = elim (Option-cases (search (s.tab db) k)) [
    | inl e ↦ unfold push_expire in rw (e, push_expire)
    | inr (x, e) ↦ unfold push_expire in rw (e, push_expire)
  ]

  pub now-delete : (s : Shard) (db : ℕ) (k : Bytes) → (delete s db k).1.now ≡ s.now
  now-delete s db k = elim (lookup_cases s db k) [
    | inl m ↦ unfold delete in rw m.outcome
    | inr (inl (e, x)) ↦ unfold delete in rw x.outcome (now-expire_entry s db k e)
    | inr (inr (e, l)) ↦ unfold delete in rw l.outcome
  ]

  pub view-store :
      (s : Shard) (db d : ℕ) (k j : Bytes) (e : Ent)
      → view (store s db k e) d j
        ≡ (if same_key (db, k) (d, j) then live_content s.now (content e) else view s d j)
  unfolding store
  view-store s db d k j e = view-insert s _ db d k j _ refl refl

  pub view-touch :
      (s : Shard) (db d : ℕ) (k j : Bytes) (e : Ent)
      → view (touch s db k e) d j
        ≡ (if same_key (db, k) (d, j) then live_content s.now (content e) else view s d j)
  unfolding touch
  view-touch s db d k j e = view-insert s _ db d k j _ refl refl

  same_key_hidden :
      (s : Shard) (db d : ℕ) (k j : Bytes)
      → view s db k ≡ none
      → view s d j ≡ (if same_key (db, k) (d, j) then none else view s d j)
  same_key_hidden s db d k j h = elim (Bool-cases (same_key (db, k) (d, j))) [
    | inl p ↦ let (pd, pk) = (same_key_iff db d k j).0 p in rw p (rw (← pd, ← pk) h)
    | inr p ↦ rw p
  ]

  pub view-delete :
      (s : Shard) (db d : ℕ) (k j : Bytes)
      → view (delete s db k).1 d j ≡ (if same_key (db, k) (d, j) then none else view s d j)
  view-delete s db d k j = elim (lookup_cases s db k) [
    | inl m ↦
        unfold delete in rw m.outcome (same_key_hidden s db d k j (view_missing s db k m.absent))
    | inr (inl (e, x)) ↦
        unfold delete in
        rw x.outcome (
          view-expire_entry s db d k j e x.present x.expired
          ∙ same_key_hidden s db d k j (view_stale s db k e x.present x.expired))
    | inr (inr (e, l)) ↦ unfold delete in rw l.outcome (view-remove s _ db d k j refl refl)
  ]

  pub delete-is_some : (s : Shard) (db : ℕ) (k : Bytes) → (delete s db k).0 ≡ is_some (view s db k)
  delete-is_some s db k = elim (lookup_cases s db k) [
    | inl m ↦ unfold delete in rw (m.outcome, view_missing s db k m.absent)
    | inr (inl (e, x)) ↦ unfold delete in rw (x.outcome, view_stale s db k e x.present x.expired)
    | inr (inr (e, l)) ↦ unfold delete in rw (l.outcome, view_live s db k e l.present l.alive)
  ]

  pub view-push_expire :
      (s : Shard) (db d : ℕ) (k j : Bytes) → view (push_expire s db k) d j ≡ view s d j
  view-push_expire s db d k j = elim (Option-cases (search (s.tab db) k)) [
    | inl e ↦ unfold push_expire in rw (e, push_expire)
    | inr (x, e) ↦
        let same : view s db k ≡ live_content s.now (content x) = unfold view in rw e in
        unfold push_expire in
        rw (e, push_expire) (view-insert s _ db d k j _ refl refl ∙ sym (unchanged same))
  ]
    where
      unchanged :
          {c : Option Content}
          → view s db k ≡ c
          → view s d j ≡ (if same_key (db, k) (d, j) then c else view s d j)
      unchanged h = elim (Bool-cases (same_key (db, k) (d, j))) [
        | inl p ↦ let (pd, pk) = (same_key_iff db d k j).0 p in rw p (rw (← pd, ← pk) h)
        | inr p ↦ rw p
      ]

  -- FLUSHDB hides every key of the DB and no other.
  pub view-flush_db :
      (s : Shard) (db d : ℕ) (j : Bytes)
      → view (flush_db s db) d j ≡ (if db == d then none else view s d j)
  unfolding flush_db view
  view-flush_db s db d j = elim (Bool-cases (db == d)) [
    | inl p ↦ rw (p, search-empty)
    | inr p ↦ rw p
  ]

  -- What a lookup returns is what is visible.
  pub data Looked (s : Shard) (db : ℕ) (k : Bytes) : Option Ent × Shard → Type 0 where
    hidden :
        (t : Shard)
        → view s db k ≡ none
        → t.now ≡ s.now
        → ((d : ℕ) (j : Bytes) → view t d j ≡ view s d j)
        → Looked s db k (none, t)
    visible :
        (e : Ent)
        → search (s.tab db) k ≡ some e
        → is_expired e s.now ≡ false
        → view s db k ≡ some (content e)
        → Looked s db k (some e, s)

  pub lookup-Looked : (s : Shard) (db : ℕ) (k : Bytes) → Looked s db k (lookup s db k)
  lookup-Looked s db k = elim (lookup_cases s db k) [
    | inl m ↦ rw m.outcome (hidden s (view_missing s db k m.absent) refl (λ d j. refl))
    | inr (inl (e, x)) ↦ rw x.outcome (
        hidden (expire_entry s db k e) (view_stale s db k e x.present x.expired)
          (unfold expire_entry in refl) (λ d j. view-expire_entry s db d k j e x.present x.expired))
    | inr (inr (e, l)) ↦
        rw l.outcome (visible e l.present l.alive (view_live s db k e l.present l.alive))
  ]

-- ===== src/Shard.antt =====
-- lib/shard/shard.go: one shard, the state that its owner goroutine keeps and the helpers that run
-- inside it. `now` is what Engine.NowMs returns. maxmemory is 0, as by default: trackAccess returns
-- at once, and the LRU and LFU trackers that untrack and purgeTrackers clean are empty.
pub mod Table
pub mod Lookup
pub mod Step
pub mod View
pub mod Memory
pub mod Sweep
pub mod Watch
use ultima.Base.{
  ℕ, zero, suc, ◌+◌, ◌-◌, ◌*◌, ◌/◌, ◌%◌, ◌^◌, ◌<◌, Bool, true, false, ◌&&◌, ◌||◌, not, Option, none,
  some, List, [], ◌∷◌, ◌++◌, Bytes, length, codes, bytes_eq, ltb, leb, ◌==◌, if◌then◌else◌, max,
}
use ultima.Base.Int.{ℤ, pos, ltb_ℤ, leb_ℤ, eqb_ℤ, add64, sub64}
use ultima.Platform.{
  EntryType, type_string, Payload, text, coll, Entry, ExpItem, Platform, Elem, sum, or_zero,
}

-- tombKey
abbrev pub TombKey : Type 0
TombKey = ℕ × Bytes

abbrev pub same_key : TombKey → TombKey → Bool
same_key (d, k) (e, j) = d == e && bytes_eq k j

-- The tombstone map, `len` included.
abbrev pub Tombs : Type 0
Tombs = List (TombKey × ℕ)

unfoldable pub tomb_get : Tombs → TombKey → ℕ
tomb_get [] k = 0
tomb_get ((j, v) ∷ m) k = if same_key j k then v else tomb_get m k

unfoldable pub tomb_delete : Tombs → TombKey → Tombs
tomb_delete [] k = []
tomb_delete ((j, v) ∷ m) k =
    let rest = tomb_delete m k in if same_key j k then rest else (j, v) ∷ rest

unfoldable pub tomb_set : Tombs → TombKey → ℕ → Tombs
unfolding tomb_delete
tomb_set m k v = (k, v) ∷ tomb_delete m k

unfoldable pub tomb_drop_db : Tombs → ℕ → Tombs
tomb_drop_db [] db = []
tomb_drop_db (((d, k), v) ∷ m) db =
    let rest = tomb_drop_db m db in if d == db then rest else ((d, k), v) ∷ rest

-- A parked blocking command: its ID, and whether its channel of capacity 1 holds a signal.
pub record Waiter : Type 0 where
  pub id : ℕ
  pub signaled : Bool

-- Why OnKeyGone was called.
pub record Gone : Type 0 where
  pub db : ℕ
  pub key : Bytes
  pub reason : Bytes

-- m[i] = v on a map or slice seen as a function.
abbrev pub update : {A : Type 0} → (ℕ → A) → ℕ → A → ℕ → A
update f i v j = if i == j then v else f j

module _ ⦃P : Platform⦄ where
  open P use {Obj, obj_type, obj_mem, Tab, search, insert, remove, empty_tab}
  open P use {Heap, push, peek, pop, items, empty_heap}

  pub record Shard : Type 0 where
    pub tab : ℕ → Tab
    pub exp : Heap
    pub tomb : Tombs
    pub epoch : ℕ → ℕ
    pub waiters : TombKey → List Waiter
    pub used_bytes : ℕ → ℕ
    pub used_total : ℕ
    pub expired_keys : ℕ
    pub gone : List Gone
    pub tomb_cap : ℕ
    pub now : ℤ

  abbrev pub Ent : Type 0
  Ent = Entry Obj

  abbrev pub type_of : Payload Obj → EntryType
  type_of (text b) = type_string
  type_of (coll o) = obj_type o

  abbrev payload_mem : Payload Obj → ℕ
  payload_mem (text b) = length b
  payload_mem (coll o) = obj_mem o

  unfoldable pub entry_mem : Bytes → Ent → ℕ
  entry_mem key e = add64 (length key + 80) (payload_mem e.payload)

  unfoldable pub add_mem : Shard → ℕ → ℕ → Shard
  add_mem s db delta = record s {
    used_bytes = update s.used_bytes db (add64 (s.used_bytes db) delta);
    used_total = add64 s.used_total delta;
  }

  -- Over TombCap the map is cleared and every DB's epoch bumped.
  unfoldable pub tombstone : Shard → ℕ → Bytes → ℕ → Shard
  unfolding tomb_set
  tombstone s db key ver =
      let full = leb s.tomb_cap (length s.tomb) in
      record s {
        tomb = tomb_set (if full then [] else s.tomb) (db, key) ((ver + 1) % 2 ^ 64);
        epoch = if full then (λ d. (s.epoch d + 1) % 2 ^ 64) else s.epoch;
      }

  unfoldable pub is_expired : Ent → ℤ → Bool
  is_expired e now = ltb_ℤ (pos 0) e.expire_at_ms && leb_ℤ e.expire_at_ms now

  -- What Lookup and sweep do to an expired entry.
  unfoldable pub expire_entry : Shard → ℕ → Bytes → Ent → Shard
  unfolding tombstone add_mem
  expire_entry s db key e =
      let s₁ = tombstone s db key e.version in
      let s₂ = record s₁ { tab = update s₁.tab db (remove (s₁.tab db) key) } in
      let s₃ = add_mem s₂ db (sub64 0 e.mem_bytes) in
      record s₃ {
        expired_keys = s₃.expired_keys + 1;
        gone = s₃.gone ++ record { db = db; key = key; reason = codes "expired" } ∷ [];
      }

  -- Lookup: passive expiry on access.
  unfoldable pub lookup : Shard → ℕ → Bytes → Option Ent × Shard
  unfolding expire_entry is_expired
  lookup s db key = elim (search (s.tab db) key) [
    | none ↦ (none, s)
    | some e ↦ if is_expired e s.now then (none, expire_entry s db key e) else (some e, s)
  ]

  -- Store: the new version exceeds the old entry's and the tombstone's.
  unfoldable pub store : Shard → ℕ → Bytes → Ent → Shard
  unfolding entry_mem add_mem tomb_delete tomb_get
  store s db key e =
      let old = search (s.tab db) key in
      let base = max (tomb_get s.tomb (db, key)) (or_zero (λ o. o.version) old) in
      let mem = entry_mem key e in
      let s₁ = add_mem s db (sub64 mem (or_zero (λ o. o.mem_bytes) old)) in
      record s₁ {
        tomb = tomb_delete s₁.tomb (db, key);
        tab =
            update s₁.tab db (
              insert (s₁.tab db) key (record e { version = (base + 1) % 2 ^ 64; mem_bytes = mem }));
      }

  -- Delete: true if a live key was removed.
  delete_found : Option Ent → Shard → ℕ → Bytes → Bool × Shard
  delete_found none s db key = (false, s)
  delete_found (some e) s db key =
      let s₁ = add_mem (tombstone s db key e.version) db (sub64 0 e.mem_bytes) in
      (true, record s₁ { tab = update s₁.tab db (remove (s₁.tab db) key) })

  unfoldable pub delete : Shard → ℕ → Bytes → Bool × Shard
  unfolding lookup delete_found tombstone add_mem
  delete s db key = let (found, s₁) = lookup s db key in delete_found found s₁ db key

  -- Touch, after a change in place of the live entry: `e` is the entry with the change, which the
  -- table's pointer shows.
  unfoldable pub touch : Shard → ℕ → Bytes → Ent → Shard
  unfolding entry_mem add_mem
  touch s db key e =
      let mem = entry_mem key e in
      let s₁ = add_mem s db (sub64 mem e.mem_bytes) in
      let e' = record e { version = (e.version + 1) % 2 ^ 64; mem_bytes = mem } in
      record s₁ { tab = update s₁.tab db (insert (s₁.tab db) key e') }

  -- FlushDB's pointer swap followed by flushDB; purgeTrackers rebuilds the heap without `db`.
  unfoldable pub heap_without : List ExpItem → ℕ → Heap
  heap_without [] db = empty_heap
  heap_without (x ∷ xs) db =
      let rest = heap_without xs db in if x.db == db then rest else push rest x

  unfoldable pub flush_db : Shard → ℕ → Shard
  unfolding tomb_drop_db add_mem heap_without
  flush_db s db =
      let s₁ = record s { tab = update s.tab db empty_tab; tomb = tomb_drop_db s.tomb db } in
      let s₂ = add_mem s₁ db (sub64 0 (s₁.used_bytes db)) in
      record s₂ {
        exp = heap_without (items s₂.exp) db;
        epoch = update s₂.epoch db ((s₂.epoch db + 1) % 2 ^ 64);
      }

  -- WatchVersion: the epoch and the version of the key, its tombstone's or 0.
  watch_found : Option Ent → Shard → ℕ → Bytes → ℕ × ℕ
  watch_found none s db key = (s.epoch db, tomb_get s.tomb (db, key))
  watch_found (some e) s db key = (s.epoch db, e.version)

  unfoldable pub watch_version : Shard → ℕ → Bytes → (ℕ × ℕ) × Shard
  unfolding lookup watch_found tomb_get
  watch_version s db key = let (found, s₁) = lookup s db key in (watch_found found s₁ db key, s₁)

  -- WatchDirty: the epoch is compared before the lookup.
  dirty_found : Option Ent → Shard → ℕ → Bytes → ℕ → Bool
  dirty_found none s db key ver = not (tomb_get s.tomb (db, key) == ver)
  dirty_found (some e) s db key ver = not (e.version == ver)

  unfoldable pub watch_dirty : Shard → ℕ → Bytes → ℕ → ℕ → Bool × Shard
  unfolding lookup dirty_found tomb_get
  watch_dirty s db key epoch ver =
      if not (epoch == s.epoch db)
      then (true, s)
      else (let (found, s₁) = lookup s db key in (dirty_found found s₁ db key ver, s₁))

  -- The waiter registry: AddWaiter, RemoveWaiter, WakeWaiter.
  abbrev set_waiters : Shard → TombKey → List Waiter → Shard
  set_waiters s k ws = record s { waiters = λ j. if same_key k j then ws else s.waiters j }

  unfoldable pub add_waiter : Shard → ℕ → Bytes → Waiter → Shard
  add_waiter s db key w = set_waiters s (db, key) (s.waiters (db, key) ++ w ∷ [])

  unfoldable pub without_waiter : List Waiter → ℕ → List Waiter
  without_waiter [] i = []
  without_waiter (w ∷ ws) i = let rest = without_waiter ws i in if w.id == i then rest else w ∷ rest

  unfoldable pub remove_waiter : Shard → ℕ → Bytes → ℕ → Shard
  unfolding without_waiter
  remove_waiter s db key i = set_waiters s (db, key) (without_waiter (s.waiters (db, key)) i)

  -- The first waiter is signaled without blocking.
  signal_first : List Waiter → List Waiter
  signal_first [] = []
  signal_first (w ∷ ws) = record w { signaled = true } ∷ ws

  unfoldable pub wake_waiter : Shard → ℕ → Bytes → Shard
  unfolding signal_first
  wake_waiter s db key = set_waiters s (db, key) (signal_first (s.waiters (db, key)))

  -- PushExpire: bumps ExpGen of the entry and pushes a heap item. Its callers pass the pointer that
  -- the table holds, so the entry is read from there.
  push_found : Option Ent → Shard → ℕ → Bytes → Shard
  push_found none s db key = s
  push_found (some e) s db key =
      let gen = (e.exp_gen + 1) % 2 ^ 64 in
      record s {
        exp = push s.exp (record { at = e.expire_at_ms; db = db; key = key; gen = gen });
        tab = update s.tab db (insert (s.tab db) key (record e { exp_gen = gen }));
      }

  unfoldable pub push_expire : Shard → ℕ → Bytes → Shard
  unfolding push_found
  push_expire s db key = push_found (search (s.tab db) key) s db key

  -- One round of sweep's loop on the popped item: a stale item is discarded.
  sweep_found : Option Ent → Shard → ExpItem → Bool × Shard
  sweep_found none s top = (false, s)
  sweep_found (some e) s top =
      if eqb_ℤ e.expire_at_ms top.at && e.exp_gen == top.gen
      then (true, expire_entry s top.db top.key e)
      else (false, s)

  unfoldable pub sweep_one : Shard → ExpItem → Bool × Shard
  unfolding sweep_found expire_entry
  sweep_one s top =
      let s₁ = record s { exp = pop s.exp } in sweep_found (search (s₁.tab top.db) top.key) s₁ top

  abbrev more_due : Option ExpItem → ℤ → Bool
  more_due none now = false
  more_due (some top) now = leb_ℤ top.at now

  -- sweep's loop over the rounds left; `late n` tells whether the deadline has passed after n pops.
  -- The result: how many keys expired, and whether due work remained.
  unfoldable pub sweep_loop : ℕ → (ℕ → Bool) → ℤ → ℕ → ℕ → Shard → (ℕ × Bool) × Shard
  unfolding sweep_one
  sweep_loop zero late now popped expired s = ((expired, more_due (peek s.exp) now), s)
  sweep_loop (suc rounds) late now popped expired s = elim (peek s.exp) [
    | none ↦ ((expired, false), s)
    | some top ↦
        let rest =
          (let (hit, s₁) = sweep_one s top in
            sweep_loop rounds late now (popped + 1) (if hit then expired + 1 else expired) s₁) in
        if ltb_ℤ now top.at
        then ((expired, false), s)
        else if ltb 0 popped && late popped
        then ((expired, true), s)
        else rest
  ]

  -- A negative limit is unbounded: the heap's length is then enough rounds.
  unfoldable pub sweep : Shard → ℤ → Option ℕ → (ℕ → Bool) → (ℕ × Bool) × Shard
  unfolding sweep_loop
  sweep s now none late = sweep_loop (length (items s.exp)) late now 0 0 s
  sweep s now (some limit) late = sweep_loop limit late now 0 0 s

-- nextSweepInterval, in the duration's unit; `base` is SweepInterval and `floor` SweepFloor.
unfoldable pub next_sweep_interval : ℕ → ℕ → ℕ → ℕ → Bool → ℕ
next_sweep_interval base floor cur expired more =
    if more
    then (if ltb floor (cur / 2) then cur / 2 else floor)
    else if expired == 0
    then (if ltb (cur * 2) base then cur * 2 else base)
    else cur

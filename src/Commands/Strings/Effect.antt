-- ===== src/Commands/Strings/Effect.antt =====
-- What the string commands do to the keyspace, each against a specification that sees only the
-- visible content of its key.
use ultima.Base.{
  Bool-cases, ℕ, ◌≡◌, refl, inl, inr, false, not, Option, none, some, Bytes, codes, length, ◌++◌,
  [], ◌∷◌, if◌then◌else◌, arith, ◌⊎◌, ◌&&◌,
}
use ultima.Base.Int.{ℤ, pos, leb_ℤ, ltb_ℤ, eqb_ℤ}
use ultima.Platform.{Platform, text}
use ultima.Resp.{Value, blob_string, null, int}
use ultima.Commands.{Reply, quiet, err_wrong_type, is_string, str_of, new_string}
use ultima.Shard.{Shard, Ent, is_expired}
use ultima.Shard.View.{Content, content, view}
use ultima.Commands.Outcome.{
  Outcome, branch, kept, stored, touched, deleted, scheduled, after_lookup,
}
use ultima.Commands.Strings.{
  get_found, get_task, getset_found, getset_task, getdel_found, getdel_task, GetexOption,
  getex_plain, getex_persist, getex_expire, getex_time, getex_live, getex_apply, getex_found,
  getex_task, append_found, append_task, strlen_found, strlen_task,
}

module _ ⦃P : Platform⦄ where
  -- A command that refuses a key of another type.
  abbrev pub on_string : (Content → Reply × Option Content) → Content → Reply × Option Content
  on_string f c = if not (is_string c.payload) then (quiet err_wrong_type, some c) else f c

  abbrev pub get_spec : Option Content → Reply × Option Content
  get_spec none = (quiet null, none)
  get_spec (some c) = on_string (λ c. (quiet (blob_string (str_of c.payload)), some c)) c

  abbrev pub new_content : Bytes → Content
  new_content val = record { payload = text val; expire_at_ms = pos 0 }

  abbrev pub getset_spec : Bytes → Option Content → Reply × Option Content
  getset_spec val none = ((null, codes "set" ∷ []), some (new_content val))
  getset_spec val (some c) =
      on_string (λ c. ((blob_string (str_of c.payload), codes "set" ∷ []), some (new_content val)))
        c

  abbrev pub getdel_spec : Option Content → Reply × Option Content
  getdel_spec none = (quiet null, none)
  getdel_spec (some c) =
      on_string (λ c. ((blob_string (str_of c.payload), codes "del" ∷ []), none)) c

  abbrev getex_time_spec : Content → ℤ → Value ⊎ ℤ → Reply × Option Content
  getex_time_spec c now (inl v) = (quiet v, some c)
  getex_time_spec c now (inr at) =
      if leb_ℤ at now then ((blob_string (str_of c.payload), codes "del" ∷ []), none) else (
        (blob_string (str_of c.payload), codes "expire" ∷ []),
        some (record c { expire_at_ms = at }),
      )

  abbrev getex_live_spec : GetexOption → ℤ → Content → Reply × Option Content
  getex_live_spec getex_plain now c = (quiet (blob_string (str_of c.payload)), some c)
  getex_live_spec getex_persist now c = (
    (
      blob_string (str_of c.payload),
      if eqb_ℤ c.expire_at_ms (pos 0) then [] else codes "persist" ∷ [],
    ),
    some (record c { expire_at_ms = pos 0 }),
  )
  getex_live_spec (getex_expire u raw) now c = getex_time_spec c now (getex_time u now raw)

  abbrev pub getex_spec : GetexOption → ℤ → Option Content → Reply × Option Content
  getex_spec g now none = (quiet null, none)
  getex_spec g now (some c) = on_string (getex_live_spec g now) c

  abbrev pub append_spec : Bytes → Option Content → Reply × Option Content
  append_spec val none = ((int (pos (length val)), codes "append" ∷ []), some (new_content val))
  append_spec val (some c) =
      on_string
        (λ c.
          let str = str_of c.payload ++ val in
          ((int (pos (length str)), codes "append" ∷ []), some (record c { payload = text str })))
        c

  abbrev pub strlen_spec : Option Content → Reply × Option Content
  strlen_spec none = (quiet (int (pos 0)), none)
  strlen_spec (some c) = on_string (λ c. (quiet (int (pos (length (str_of c.payload)))), some c)) c

  -- The content of a live entry is live.
  pub live_now :
      (e : Ent) (now : ℤ)
      → is_expired e now ≡ false
      → (ltb_ℤ (pos 0) e.expire_at_ms && leb_ℤ e.expire_at_ms now) ≡ false
  unfolding is_expired
  live_now e now live = live

  module _ (s : Shard) (db : ℕ) (key : Bytes) where
    -- GET replies with the string that is visible, or null, or WRONGTYPE, and changes no key.
    pub get_task-Outcome : Outcome s db key (get_spec (view s db key)) (get_task db key s)
    unfolding get_task get_found
    get_task-Outcome =
        after_lookup s db key get_found get_spec (λ t h n. kept t db key _ none h)
          (λ e live h.
            branch s db key (not (is_string e.payload)) (λ _. kept s db key _ _ h)
              (λ _. kept s db key _ _ h))

    -- STRLEN replies with the length of the visible string, 0 for a missing key, and changes no key.
    pub strlen_task-Outcome : Outcome s db key (strlen_spec (view s db key)) (strlen_task db key s)
    unfolding strlen_task strlen_found
    strlen_task-Outcome =
        after_lookup s db key strlen_found strlen_spec (λ t h n. kept t db key _ none h)
          (λ e live h.
            branch s db key (not (is_string e.payload)) (λ _. kept s db key _ _ h)
              (λ _. kept s db key _ _ h))

    -- GETDEL.
    pub getdel_task-Outcome : Outcome s db key (getdel_spec (view s db key)) (getdel_task db key s)
    unfolding getdel_task getdel_found
    getdel_task-Outcome =
        after_lookup s db key (getdel_found db key) getdel_spec (λ t h n. kept t db key _ none h)
          (λ e live h.
            branch s db key (not (is_string e.payload)) (λ _. kept s db key _ _ h)
              (λ _. deleted s db key _))

  module _ (val : Bytes) (s : Shard) (db : ℕ) (key : Bytes) where
    pub getset_task-Outcome :
        Outcome s db key (getset_spec val (view s db key)) (getset_task val db key s)
    unfolding getset_task getset_found
    getset_task-Outcome =
        after_lookup s db key (getset_found val db key) (getset_spec val)
          (λ t h n. stored t db key _ (new_string val) _ refl)
          (λ e live h.
            branch s db key (not (is_string e.payload)) (λ _. kept s db key _ _ h)
              (λ _. stored s db key _ (new_string val) _ refl))

    pub append_task-Outcome :
        Outcome s db key (append_spec val (view s db key)) (append_task val db key s)
    unfolding append_task append_found
    append_task-Outcome =
        after_lookup s db key (append_found val db key) (append_spec val)
          (λ t h n. stored t db key _ (new_string val) _ refl)
          (λ e live h.
            branch s db key (not (is_string e.payload)) (λ _. kept s db key _ _ h)
              (λ _. touched s db key _ _ _ (ground (arith, live_now e s.now live))))

  module _ (s : Shard) (db : ℕ) (key : Bytes) where
    getex_apply-Outcome :
        (e : Ent) (r : Value ⊎ ℤ)
        → view s db key ≡ some (content e)
        → Outcome s db key (getex_time_spec (content e) s.now r) (getex_apply db key e s r)
    unfolding getex_apply
    getex_apply-Outcome e (inl v) h = kept s db key _ _ h
    getex_apply-Outcome e (inr at) h = elim (Bool-cases (leb_ℤ at s.now)) [
      | inl b ↦ rw b (deleted s db key (blob_string (str_of e.payload), codes "del" ∷ []))
      | inr b ↦ rw b (
          scheduled s db key _ _ _
            (touched s db key _ (record e { expire_at_ms = at }) _ (ground (arith, b))))
    ]

    getex_live-Outcome :
        (g : GetexOption) (e : Ent)
        → view s db key ≡ some (content e)
        → Outcome s db key (getex_live_spec g s.now (content e)) (getex_live g db key e s)
    unfolding getex_live
    getex_live-Outcome getex_plain e h = kept s db key _ _ h
    getex_live-Outcome getex_persist e h =
        touched s db key _ (record e { expire_at_ms = pos 0 }) _ refl
    getex_live-Outcome (getex_expire u raw) e h = getex_apply-Outcome e (getex_time u s.now raw) h

  module _ (g : GetexOption) (s : Shard) (db : ℕ) (key : Bytes) where
    pub getex_task-Outcome :
        Outcome s db key (getex_spec g s.now (view s db key)) (getex_task g db key s)
    unfolding getex_task getex_found
    getex_task-Outcome =
        after_lookup s db key (getex_found g db key) (getex_spec g s.now)
          (λ t h n. kept t db key _ none h)
          (λ e live h.
            branch s db key (not (is_string e.payload)) (λ _. kept s db key _ _ h)
              (λ _. getex_live-Outcome s db key g e h))

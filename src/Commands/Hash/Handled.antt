-- ===== src/Commands/Hash/Handled.antt =====
-- The hash commands on the keyspace of the whole engine.
use ultima.Base.{
  ℕ, ◌≡◌, refl, ap, ◌∙◌, inl, inr, false, Option, none, some, List, [], ◌∷◌, Bytes, codes, ◌==◌,
  ltb, if◌then◌else◌, ◌>>=◌, Bool-cases, arith,
}
use ultima.Base.Int.{ℤ, pos}
use ultima.Platform.{Platform}
use ultima.Resp.{Value, int}
use ultima.Types.Hash.{Hash, new_hash, hash_len}
use ultima.Types.Hash.Pairs.{value_of}
use ultima.Types.Hash.Encoding.{IsHash}
use ultima.Types.Hash.Refines.{changes}
use ultima.Shard.View.{Content}
use ultima.Commands.{quiet, Server, shard_of}
use ultima.Commands.Lift.{keyspace, Handled}
use ultima.Commands.Collections.{Hashes}
use ultima.Commands.Collections.Outcomes.{refuse_or, spec_command}
use ultima.Commands.Hash.{
  HashRead, read_task, hset_task, hdel_task, is_odd, hash_in, cmd_hread, cmd_hset, cmd_hdel,
  read_reply, hset_fields, hdel_fields,
}
use ultima.Commands.Hash.Effect.{
  hash_content, read_spec, hset_spec, hset_done, hdel_spec, hdel_left, read_task-Outcome,
  hset_task-Outcome, hdel_task-Outcome,
}
use ultima.Commands.Hash.Total.{
  hset_ops, hdel_ops, count_ops, hset_fields_lem, hdel_fields_lem, read_reply-view, read_view,
  read_missing-view,
}

module _ ⦃P : Platform⦄ ⦃O : Hashes⦄ where
  open O use {of_hash, as_hash, as_hash-of_hash}

  -- The hash that a hash command works on; a missing key counts as an empty one.
  abbrev pub hash_at : Option Content → Option Hash
  hash_at none = some new_hash
  hash_at (some c) = hash_in c.payload

  abbrev pub expiry : Option Content → ℤ
  expiry none = pos 0
  expiry (some c) = c.expire_at_ms

  hset_spec_lem :
      (rest : List Bytes) (c : Option Content) (h : Hash) (r : Hash × ℕ)
      → hash_at c ≡ some h
      → hset_fields rest h 0 ≡ some r
      → hset_spec rest c
        ≡ (some (int (pos r.1), codes "hset" ∷ []), some (hash_content r.0 (expiry c)))
  hset_spec_lem rest none h r here run =
      let e : new_hash ≡ h = ground arith in rw (ap (λ h. hset_fields rest h 0) e ∙ run) refl
  hset_spec_lem rest (some c) h r here run =
      ap (refuse_or c (λ h. hset_done c (hset_fields rest h 0))) here ∙ ap (hset_done c) run

  -- HSET with fields and values in pairs, on a missing key or one that holds a well-formed hash,
  -- replies the number of its fields that were new when their turn came, notifies hset, keeps the
  -- expiry, and leaves in the key a well-formed hash whose fields read as a finite map changed by
  -- the same assignments; no other key changes.
  pub cmd_hset-Handled :
      (e : Server) (db : ℕ) (key : Bytes) (rest : List Bytes) (h : Hash)
      → is_odd rest ≡ false
      → hash_at (keyspace e db key) ≡ some h
      → IsHash h
      → (x : Value × Server) × (h' : Hash) × (cmd_hset e db key rest ≡ some x)
        × Handled e db key
            (
              (int (pos (count_ops (hset_ops rest) (value_of h.pairs))), codes "hset" ∷ []),
              some (hash_content h' (expiry (keyspace e db key))),
            )
            x
        × IsHash h'
        × ((f : Bytes) → value_of h'.pairs f ≡ changes (hset_ops rest) (value_of h.pairs) f)
  unfolding cmd_hset
  cmd_hset-Handled e db key rest h even here w =
      let (r, run, l) = hset_fields_lem rest h 0 w in
      let n : r.1 ≡ count_ops (hset_ops rest) (value_of h.pairs) = omega (arith, l.counts) in
      let done = hset_spec_lem rest (keyspace e db key) h r here run in
      let (x, ran, handled) =
        spec_command e db key (hset_spec rest) (hset_task rest db key) _ _
          (hset_task-Outcome (shard_of e key) db key rest) done in
      (x, r.0, rw (cmd_hset, even) ran, (rw n at handled), l.valid, l.shows)

  read_spec_lem :
      (rd : HashRead) (c : Option Content) (h : Hash)
      → hash_at c ≡ some h
      → IsHash h
      → read_spec rd c ≡ (some (quiet (read_view rd h)), c)
  read_spec_lem rd none h here w =
      let e : new_hash ≡ h = ground arith in rw (read_missing-view rd, e) refl
  read_spec_lem rd (some c) h here w =
      ap (refuse_or c (λ h. ((read_reply rd h) >>= (λ v. some (quiet v)), some c))) here
      ∙ rw (read_reply-view rd h w) refl

  -- HGET, HMGET, HGETALL, HEXISTS, HLEN, HKEYS, HVALS and HSTRLEN, on a missing key or one that
  -- holds a well-formed hash, reply what read_view says of the values of the fields and the order
  -- of the pairs, a missing key counting as an empty hash; they notify nothing and change no
  -- visible key.
  pub cmd_hread-Handled :
      (e : Server) (db : ℕ) (key : Bytes) (rd : HashRead) (h : Hash)
      → hash_at (keyspace e db key) ≡ some h
      → IsHash h
      → (x : Value × Server) × (cmd_hread e db key rd ≡ some x)
        × Handled e db key (quiet (read_view rd h), keyspace e db key) x
  unfolding cmd_hread
  cmd_hread-Handled e db key rd h here w =
      spec_command e db key (read_spec rd) (read_task rd db key) _ _
        (read_task-Outcome (shard_of e key) db key rd)
        (read_spec_lem rd (keyspace e db key) h here w)

  -- The content that HDEL leaves: nothing if the hash became empty.
  abbrev pub left_by : Hash → ℕ → Content → Option Content
  left_by h n c =
      if hash_len h == 0 then none else some (if ltb 0 n then hash_content h c.expire_at_ms else c)

  -- HDEL on a key that holds a well-formed hash replies the number of its fields that were there
  -- when their turn came, leaves a well-formed hash that reads as a finite map without them, keeps
  -- the expiry, deletes the key when the hash is empty, and notifies hdel, and del after it for a
  -- deleted key, only if a field was removed; no other key changes.
  pub cmd_hdel-Handled :
      (e : Server) (db : ℕ) (key : Bytes) (fs : List Bytes) (c : Content) (h : Hash)
      → keyspace e db key ≡ some c
      → hash_in c.payload ≡ some h
      → IsHash h
      → (x : Value × Server) × (h' : Hash) × (n : ℕ) × (cmd_hdel e db key fs ≡ some x)
        × (n ≡ count_ops (hdel_ops fs) (value_of h.pairs))
        × Handled e db key
            (
              (
                int (pos n),
                if ltb 0 n
                    then (if hash_len h' == 0
                        then codes "hdel" ∷ codes "del" ∷ []
                        else codes "hdel" ∷ [])
                    else [],
              ),
              left_by h' n c,
            )
            x
        × IsHash h'
        × ((f : Bytes) → value_of h'.pairs f ≡ changes (hdel_ops fs) (value_of h.pairs) f)
  unfolding cmd_hdel
  cmd_hdel-Handled e db key fs c h at_key here w =
      let ((h', n), run, l) = hdel_fields_lem fs h 0 w in
      let counts : n ≡ count_ops (hdel_ops fs) (value_of h.pairs) = omega (arith, l.counts) in
      let (x, ran, handled) =
        spec_command e db key (hdel_spec fs) (hdel_task fs db key) _ _
          (hdel_task-Outcome (shard_of e key) db key fs)
          (rw at_key (
            ap (refuse_or c (λ h. hdel_left c (hdel_fields fs h 0))) here
            ∙ ap (hdel_left c) run
            ∙ hdel_left_eq c h' n)) in
      (x, h', n, ran, counts, handled, l.valid, l.shows)
    where
      hdel_left_eq :
          (c : Content) (h' : Hash) (n : ℕ)
          → hdel_left c (some (h', n)) ≡ (
            some (
              int (pos n),
              if ltb 0 n
                  then (if hash_len h' == 0
                      then codes "hdel" ∷ codes "del" ∷ []
                      else codes "hdel" ∷ [])
                  else [],
            ),
            left_by h' n c,
          )
      hdel_left_eq c h' n = elim (Bool-cases (hash_len h' == 0)) [
        | inl b ↦ rw b refl
        | inr b ↦ rw b refl
      ]

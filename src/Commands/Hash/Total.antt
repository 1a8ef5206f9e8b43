-- ===== src/Commands/Hash/Total.antt =====
-- The hash commands on well-formed hashes: none panics, and the hashes they leave are well-formed.
use ultima.Base.{
  ℕ, ◌+◌, ◌≡◌, refl, ap, ◌∙◌, inl, inr, Bool, true, false, Option, none, some, List, [], ◌∷◌, map,
  Bytes, codes, if◌then◌else◌, Bool-cases, arith, not, length,
}
use ultima.Base.Int.{ℤ, pos, ◌+ℤ◌, wrap64, wrap64-IsInt64}
use ultima.Numbers.RoundTrip.{parse-format_int}
use ultima.Resp.{Value, int, null, arr, err, blob_string, dictionary, values}
use ultima.Types.Hash.{Hash, new_hash}
use ultima.Types.Hash.Pairs.{value_of}
use ultima.Types.Hash.Encoding.{IsHash}
use ultima.Types.Hash.Refines.{
  HashOp, hset, hdel, change, change_congr, changes, changes_congr, is_none, hash_get-value,
  hash_set-IsHash, hash_del-IsHash,
}
use ultima.Commands.{quiet, err_incr_ovf}
use ultima.Commands.Counters.{would_overflow}
use ultima.Commands.Hash.{
  HashRead, read_get, read_exists, read_strlen, read_mget, read_getall, read_len, read_keys,
  read_vals, read_reply, read_missing, nulls, flatten, hmget_values, hset_fields, hdel_fields,
  Update, hsetnx_update, hincrby_update, hincrby_to, is_present, old_int, blob_or, bool_int,
  size_of,
}

-- What each reading command replies, from the values of the fields and the pairs in their order.
unfoldable pub read_view : HashRead → Hash → Value
unfolding flatten value_of
read_view (read_get f) h = blob_or null (value_of h.pairs f)
read_view (read_exists f) h = int (bool_int (is_present (value_of h.pairs f)))
read_view (read_strlen f) h = int (pos (size_of (value_of h.pairs f)))
read_view (read_mget fs) h = arr (map (λ f. blob_or null (value_of h.pairs f)) fs)
read_view read_getall h = dictionary (values (flatten h.pairs))
read_view read_len h = int (pos (length h.pairs))
read_view read_keys h = arr (map (λ p. blob_string p.field) h.pairs)
read_view read_vals h = arr (map (λ p. blob_string p.value) h.pairs)

hmget_values-map :
    (fs : List Bytes) (h : Hash)
    → IsHash h
    → hmget_values fs h ≡ some (map (λ f. blob_or null (value_of h.pairs f)) fs)
unfolding hmget_values
hmget_values-map [] h w = refl
hmget_values-map (f ∷ fs) h w = rw (hash_get-value h f w, hmget_values-map fs h w) refl

pub read_reply-view :
    (rd : HashRead) (h : Hash) → IsHash h → read_reply rd h ≡ some (read_view rd h)
unfolding read_reply read_view
read_reply-view (read_get f) h w = rw (hash_get-value h f w) refl
read_reply-view (read_exists f) h w = rw (hash_get-value h f w) refl
read_reply-view (read_strlen f) h w = rw (hash_get-value h f w) refl
read_reply-view (read_mget fs) h w = rw (hmget_values-map fs h w) refl
read_reply-view read_getall h w = refl
read_reply-view read_len h w = refl
read_reply-view read_keys h w = refl
read_reply-view read_vals h w = refl

nulls-map : (fs : List Bytes) → nulls fs ≡ map (λ f. blob_or null (value_of new_hash.pairs f)) fs
unfolding value_of
nulls-map [] = refl
nulls-map (f ∷ fs) = ap (λ vs. null ∷ vs) (nulls-map fs)

pub read_missing-view : (rd : HashRead) → read_missing rd ≡ read_view rd new_hash
unfolding read_missing read_view
read_missing-view (read_get f) = refl
read_missing-view (read_exists f) = refl
read_missing-view (read_strlen f) = refl
read_missing-view (read_mget fs) = ap arr (nulls-map fs)
read_missing-view read_getall = unfold flatten in refl
read_missing-view read_len = refl
read_missing-view read_keys = refl
read_missing-view read_vals = refl

-- The calls that HSET and HDEL make on the hash, and how many fields they add or remove.
abbrev pub hset_ops : List Bytes → List HashOp
hset_ops [] = []
hset_ops (f ∷ []) = []
hset_ops (f ∷ v ∷ rest) = hset f v ∷ hset_ops rest

abbrev pub hdel_ops : List Bytes → List HashOp
hdel_ops [] = []
hdel_ops (f ∷ fs) = hdel f ∷ hdel_ops fs

abbrev pub one_if : Bool → ℕ
one_if true = 1
one_if false = 0

-- Fields that are there change from `b` to not `b`.
abbrev counted : HashOp → (Bytes → Option Bytes) → ℕ
counted (hset f v) view = one_if (is_none (view f))
counted (hdel f) view = one_if (not (is_none (view f)))

abbrev pub count_ops : List HashOp → (Bytes → Option Bytes) → ℕ
count_ops [] view = 0
count_ops (op ∷ ops) view = counted op view + count_ops ops (change op view)

-- The hash and the count that a loop over `ops` ends with.
pub record Looped (ops : List HashOp) (h : Hash) (n : ℕ) (r : Hash × ℕ) : Type 0 where
  pub valid : IsHash r.0
  pub shows : (j : Bytes) → value_of r.0.pairs j ≡ changes ops (value_of h.pairs) j
  pub counts : r.1 ≡ n + count_ops ops (value_of h.pairs)

counted_congr :
    (op : HashOp) (v w : Bytes → Option Bytes)
    → ((j : Bytes) → v j ≡ w j)
    → counted op v ≡ counted op w
counted_congr (hset f x) v w e = rw (e f) refl
counted_congr (hdel f) v w e = rw (e f) refl

count_ops_congr :
    (ops : List HashOp) (v w : Bytes → Option Bytes)
    → ((j : Bytes) → v j ≡ w j)
    → count_ops ops v ≡ count_ops ops w
count_ops_congr [] v w e = refl
count_ops_congr (op ∷ ops) v w e = omega (
  arith,
  counted_congr op v w e,
  count_ops_congr ops (change op v) (change op w) (λ j. change_congr op v w j (e j)),
)

counts_one : (b : Bool) (n : ℕ) → (if b then n + 1 else n) ≡ n + one_if b
counts_one true n = refl
counts_one false n = omega arith

Looped-step :
    (op : HashOp) (ops : List HashOp) (h h' : Hash) (n n' : ℕ) (r : Hash × ℕ)
    → ((j : Bytes) → value_of h'.pairs j ≡ change op (value_of h.pairs) j)
    → n' ≡ n + counted op (value_of h.pairs)
    → Looped ops h' n' r
    → Looped (op ∷ ops) h n r
Looped-step op ops h h' n n' r step c l = record {
  valid = l.valid;
  shows = λ j. l.shows j ∙ changes_congr ops _ _ j (step j);
  counts = omega (arith, c, l.counts, count_ops_congr ops _ _ step);
}

pub hset_fields_lem :
    (rest : List Bytes) (h : Hash) (n : ℕ)
    → IsHash h
    → (r : Hash × ℕ) × (hset_fields rest h n ≡ some r) × Looped (hset_ops rest) h n r
unfolding hset_fields
hset_fields_lem [] h n w =
    ((h, n), refl, record { valid = w; shows = λ j. refl; counts = omega arith })
hset_fields_lem (f ∷ []) h n w =
    ((h, n), refl, record { valid = w; shows = λ j. refl; counts = omega arith })
hset_fields_lem (f ∷ v ∷ rest) h n w =
    let (h', e, (w', step)) = hash_set-IsHash h f v w in
    let n' = if is_none (value_of h.pairs f) then n + 1 else n in
    let (r, e', l) = hset_fields_lem rest h' n' w' in
    (r, rw e e', Looped-step (hset f v) (hset_ops rest) h h' n n' r step (counts_one _ n) l)

pub hdel_fields_lem :
    (fs : List Bytes) (h : Hash) (n : ℕ)
    → IsHash h
    → (r : Hash × ℕ) × (hdel_fields fs h n ≡ some r) × Looped (hdel_ops fs) h n r
unfolding hdel_fields
hdel_fields_lem [] h n w =
    ((h, n), refl, record { valid = w; shows = λ j. refl; counts = omega arith })
hdel_fields_lem (f ∷ fs) h n w =
    let (h', e, (w', step)) = hash_del-IsHash h f w in
    let n' = if not (is_none (value_of h.pairs f)) then n + 1 else n in
    let (r, e', l) = hdel_fields_lem fs h' n' w' in
    (r, rw e e', Looped-step (hdel f) (hdel_ops fs) h h' n n' r step (counts_one _ n) l)

abbrev pub UpdateOk : Update → Type 0
UpdateOk (inl r) = Unit
UpdateOk (inr (r, h)) = IsHash h

abbrev pub IsTotal : (Hash → Option Update) → Type 0
IsTotal f = (h : Hash) → IsHash h → (u : Update) × (f h ≡ some u) × UpdateOk u

pub hsetnx_update-IsTotal : (f v : Bytes) → IsTotal (hsetnx_update f v)
unfolding hsetnx_update
hsetnx_update-IsTotal f v h w = elim (Bool-cases (is_present (value_of h.pairs f))) [
  | inl b ↦ (inl (quiet (int (pos 0))), rw (hsetnx_update, hash_get-value h f w, b) refl, tt)
  | inr b ↦
      let (h', e, (w', _)) = hash_set-IsHash h f v w in
      (
        inr ((int (pos 1), codes "hset" ∷ []), h'),
        rw (hsetnx_update, hash_get-value h f w, b, e) refl,
        w',
      )
]

hincrby_to_lem :
    (f : Bytes) (delta : ℤ) (h : Hash) (o : Option ℤ)
    → IsHash h
    → (u : Update) × (hincrby_to f delta h o ≡ some u) × UpdateOk u
unfolding hincrby_to
hincrby_to_lem f delta h none w = (inl (quiet (err "ERR hash value is not an integer")), refl, tt)
hincrby_to_lem f delta h (some cur) w = elim (Bool-cases (would_overflow cur delta)) [
  | inl b ↦ (inl (quiet err_incr_ovf), rw b refl, tt)
  | inr b ↦
      let sum = wrap64 (cur +ℤ delta) in
      let (t, ft, _) = parse-format_int sum (wrap64-IsInt64 (cur +ℤ delta)) in
      let (h', s, (w', _)) = hash_set-IsHash h f t w in
      (inr ((int sum, codes "hincrby" ∷ []), h'), rw (b, ft, s) refl, w')
]

pub hincrby_update-IsTotal : (f : Bytes) (delta : ℤ) → IsTotal (hincrby_update f delta)
unfolding hincrby_update
hincrby_update-IsTotal f delta h w =
    let (u, e, ok) = hincrby_to_lem f delta h (old_int (value_of h.pairs f)) w in
    (u, rw (hincrby_update, hash_get-value h f w) e, ok)

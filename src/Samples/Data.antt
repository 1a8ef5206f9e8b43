-- ===== src/Samples/Data.antt =====
-- A small engine whose four shards hold the key `counter`, and a command table.
use ultima.Base.{
  ◌≡◌, refl, inr, true, false, none, some, List, [], ◌∷◌, Bytes, codes, bytes_eq, if◌then◌else◌,
}
use ultima.Base.Int.{pos, negsuc, div_ℤ, wrap64, ◌-ℤ◌, ◌+ℤ◌, ◌*ℤ◌}
use ultima.Shard.{Shard, store}
use ultima.Commands.{Server, new_string, reply_ok}
use ultima.Commands.Set.{SetOptions, ex, parse_set_options, resolve_expire}
use ultima.Commands.Tx.{ConnState, CmdDef, Table, answer}
use ultima.Commands.Tx.Execute.{Gates}
use ultima.Samples.Model.{sample}

abbrev pub empty_shard : Shard
empty_shard = record {
  tab = λ d. ([], tt);
  exp = [];
  tomb = [];
  epoch = λ d. 0;
  waiters = λ k. [];
  used_bytes = λ d. 0;
  used_total = 0;
  expired_keys = 0;
  gone = [];
  tomb_cap = 4;
  now = pos 1000;
}

abbrev pub counter : Bytes
counter = codes "counter"

-- The key `counter` holds 41.
abbrev pub one_key : Shard
one_key = store empty_shard 0 counter (new_string (codes "41"))

abbrev pub engine : Server
engine = record { shards = λ i. one_key; k = 2; now = pos 1000; events = [] }

abbrev pub ex_options : List Bytes
ex_options = codes "EX" ∷ codes "10" ∷ codes "GET" ∷ []

abbrev pub ex_parsed : SetOptions
ex_parsed = record {
  nx = false;
  xx = false;
  get = true;
  keepttl = false;
  exp_unit = some ex;
  expire_at_ms = pos 10;
}

abbrev pub ex_resolved : SetOptions
ex_resolved = record ex_parsed { expire_at_ms = pos 11000 }

pub ex_options_parse : parse_set_options ex_options ≡ inr ex_parsed
unfolding parse_set_options
ex_options_parse = refl

pub ex_options_resolve : resolve_expire (pos 1000) ex_parsed ≡ inr ex_resolved
unfolding resolve_expire div_ℤ wrap64 ◌-ℤ◌ ◌+ℤ◌ ◌*ℤ◌
ex_options_resolve = refl

-- A connection inside MULTI with one queued command.
abbrev pub in_multi : ConnState
in_multi = record {
  proto = 3;
  authed = true;
  db = 0;
  multi = true;
  queue = (codes "ping" ∷ []) ∷ [];
  queue_err = false;
  watch = [];
  in_exec = false;
  subscriptions = 0;
}

-- The same connection, which watches `counter` at a version that the key no longer has.
abbrev pub watching : ConnState
watching = record in_multi { watch = record { db = 0; key = counter; epoch = 0; ver = 0 } ∷ [] }

-- A table that knows PING only.
abbrev pub ping : CmdDef
ping = record {
  name = codes "ping";
  arity = negsuc 0;
  flags = codes "fast" ∷ [];
  handler = λ e cs args. answer e cs reply_ok;
}

unfoldable pub only_ping : Table
unfolding bytes_eq
only_ping name = if bytes_eq name (codes "ping") then some ping else none

abbrev pub open_gates : Gates
open_gates = record { require_pass = []; busy = false; out_of_memory = false }

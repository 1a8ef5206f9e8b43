-- ===== src/Commands/Set/Watched.antt =====
-- A plain SET between WATCH and EXEC is seen by EXEC's dirty check.
use ultima.Platform.{Platform}
use ultima.Shard.{Shard}

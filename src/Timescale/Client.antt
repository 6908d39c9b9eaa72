-- ===== src/Timescale/Client.antt =====
-- internal/timescale/timescale.go: NewTimescaleClient. The pool's library and its tracer are
-- arguments.
use litime_timescaledb_inser.Prelude.{Option, Result}
use litime_timescaledb_inser.Strings.{Text}
use litime_timescaledb_inser.Effects.{Proc, ◌>>=◌, attempt, checked, perform, give, pool_opened}

pub data ClientError (E : Type 0) : Type 0 where
  create_pool_failed connect_failed ping_failed : E → ClientError E

module _ {E PoolConfig Pool : Type 0} (parse_config : Text → Result E PoolConfig)
    (with_tracer : PoolConfig → PoolConfig) (new_with_config : PoolConfig → Result E Pool)
    (ping : Pool → Option E) where
  -- The client is its pool. A pool that does not answer is left open.
  unfoldable pub new_timescale_client : Text → Proc (ClientError E) Pool
  new_timescale_client conn_string = do
    cfg ← attempt create_pool_failed (parse_config conn_string)
    pool ← attempt connect_failed (new_with_config (with_tracer cfg))
    opened ← perform pool_opened
    answered ← checked ping_failed (ping pool)
    give pool

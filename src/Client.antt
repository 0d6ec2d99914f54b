-- ===== src/Client.antt =====
-- store/redis_client.py: what the methods of `AsyncRedisClient` give their callers.

-- A call is taken by Redis; or Redis is not there, or the breaker is open, which the client turns into
-- the empty value of the call; or it raises another error.
pub data CallResult : Type 0 where
  taken refused raises : CallResult

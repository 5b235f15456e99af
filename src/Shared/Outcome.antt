-- ===== src/Shared/Outcome.antt =====
-- What a caller learns of a request to Redis or PostgreSQL.
-- How a request to a server ends: it takes effect and is answered, it takes effect and the answer
-- is lost (the call raises), or it has no effect (the call raises).
pub data Outcome : Type 0 where
  fine lost down : Outcome

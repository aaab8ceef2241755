-- ===== src/Dispatcher/Queueing.antt =====
-- `_persist_completion` again, at another time, for a completion that has reached the outbox.
use superdev.Base.{string_eq, nat_eq, pair_eq, option_string_eq}

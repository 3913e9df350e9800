-- ===== src/State/Streams/Failed.antt =====
-- A stream that fails before it starts, as `Manager.run` reports it: `OnStreamPrebuffering`, then
-- `OnStreamEnded`.

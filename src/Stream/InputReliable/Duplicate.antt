-- ===== src/Stream/InputReliable/Duplicate.antt =====
-- A message that comes again while the stream still keeps it.

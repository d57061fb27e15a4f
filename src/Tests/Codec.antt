-- ===== src/Tests/Codec.antt =====
-- A number and a short string.

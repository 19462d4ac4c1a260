-- ===== src/Tests/Sessions.antt =====
-- A file of five bytes is uploaded and then downloaded by the same client.

-- ===== src/Samples/CheckRuns.antt =====
-- The check of the values after a file is read, over the sample tree.

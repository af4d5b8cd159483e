-- ===== src/Scanner/Comparison/Patch.antt =====
-- A comparison as a patch: what it says about each key of the two scans.

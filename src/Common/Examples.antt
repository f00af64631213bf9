-- ===== src/Common/Examples.antt =====
-- Concrete keys and numbers for the lemmas on the program's text.

-- ===== src/Divergence/Convergent.antt =====
-- src/CLSmith/Divergence.cpp: the analysis of an expression is defined and right.
use clsmith.Divergence.Ensures.{Ensures}
use clsmith.Divergence.Yields.{Yields}

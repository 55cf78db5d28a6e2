-- ===== src/Dfs/Exhaustive.antt =====
-- src/DFSProgramGenerator.cpp: the loop outputs all paths.
use clsmith.Prelude.{List}

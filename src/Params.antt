-- ===== src/Params.antt =====
-- The scripts that derive a parameter file for one experiment: mk_rpp.py and mkparams.py.
pub mod Swap
pub mod Overrides

-- ===== src/Affinity/Tests.antt =====
-- Four processors, and no pinning.
use trading_engine.Base.{◌≡◌, true, some, arith, get_elem?}
use trading_engine.Base.Int.{pos, negsuc}
use trading_engine.Affinity.{affinity_mask}
use trading_engine.Affinity.Masks.{affinity_mask_lem}

any_of_four : get_elem? (affinity_mask (pos 4) (negsuc 0)) 3 ≡ some true
any_of_four = affinity_mask_lem (pos 4) (negsuc 0) 3 (omega arith)

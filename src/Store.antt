-- ===== src/Store.antt =====
-- `HangarStore` of packages/hangar-server/src/store.rs: the database and the working memory. The
-- text and vector indexes and the blob files are not part of the model.
use hangar_ia.Platform.{Platform}
use hangar_ia.Types.Working.{WorkingMemoryStore}
use hangar_ia.Database.{Database}

pub record HangarStore (p : Platform) : Type 0 where
  pub database : Database p
  pub working_memory : WorkingMemoryStore

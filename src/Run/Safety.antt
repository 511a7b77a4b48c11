-- ===== src/Run/Safety.antt =====
-- Every run of the kernel keeps it coherent.
use skibios.Config.{Config}

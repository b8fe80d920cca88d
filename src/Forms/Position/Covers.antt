-- ===== src/Forms/Position/Covers.antt =====
-- What the position form grants its router.
use ghoststake.Text.{Text}

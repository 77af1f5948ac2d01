-- ===== src/Domain/Enums.antt =====
-- core/internal/domain/enums.go: the words that a configuration chooses from. A text that is none of
-- them is kept until it is validated.
use smart_srun.Prelude.{Bytes}

pub data AccessMode : Type 0 where
  wifi wired : AccessMode
  unknown : Bytes → AccessMode

-- A text that is none of the three is refused.
pub data ApSelection : Type 0 where
  auto strongest fixed other : ApSelection

pub data CheckMode : Type 0 where
  internet portal ssid unknown : CheckMode

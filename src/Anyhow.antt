-- ===== src/Anyhow.antt =====
-- `anyhow::Result`: a value, or an error that has a text.
use superkube.Base.{String, Option, none, some}

pub data Anyhow {ℓ} (A : Type ℓ) : Type ℓ where
  done : A → Anyhow A
  error : String → Anyhow A

-- `ok_or_else(|| anyhow!(..))`.
abbrev pub ok_or_else {ℓ} : {A : Type ℓ} → Option A → String → Anyhow A
ok_or_else none message = error message
ok_or_else (some a) message = done a

-- ===== src/Caddyfile.antt =====
-- What Caddy's caddyfile.Dispenser yields to the Unmarshal functions of the modules: one entry for
-- each `Next`, with its arguments and one entry for each line of its block.
use point_c.Base.{List, Bytes, GoError, ◌⊎◌}

-- A line of a block: the token that `Val` returns first, and the arguments behind it.
pub record Line : Type 0 where
  pub head : Bytes
  pub args : List Bytes

-- One `Next`: the arguments on its line, and the lines of its block.
pub record Directive : Type 0 where
  pub args : List Bytes
  pub block : List Line

abbrev pub Tokens : Type 0
Tokens = List Directive

-- `caddyfile.UnmarshalModule` with a module's id, behind `caddyconfig.JSON`: the module's JSON
-- text.
abbrev pub LoadModule : Type 0
LoadModule = Bytes → Line → Bytes ⊎ GoError

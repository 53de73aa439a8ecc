-- ===== src/Program/Ending.antt =====
-- cmd/main.go: when the process ends.
use s_ingress.Common.{List, [], suc, ℕ, ◌∷◌}
use s_ingress.Program.{LoopChoice, sends_config}
use s_ingress.Proxy.Lifecycle.{Proxy}

-- The configurations that the loop of the controller would still send.
abbrev pub sends : List LoopChoice → ℕ
sends [] = 0
sends (sends_config ∷ more) = suc (sends more)
sends (_ ∷ more) = sends more

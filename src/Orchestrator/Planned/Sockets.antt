-- ===== src/Orchestrator/Planned/Sockets.antt =====
-- The sockets of the ports of machines and containers.
use nfvis.Prelude.{String, ◌+++◌, ◌≡◌, sym, ap, ◌∙◌}
use text.Mathlib.TextLemmas.{append_assoc}
use nfvis.Orchestrator.Ports.{Paths, socket_path}

-- The port `a-b` of a machine `vm` and the port `b` of a machine `vm-a` have one socket: the path does
-- not tell them apart.
pub socket_path_shared :
    (paths : Paths) (dir vm a b : String)
    → socket_path paths dir vm (a +++ "-" +++ b) ≡ socket_path paths dir (vm +++ "-" +++ a) b
socket_path_shared paths dir vm a b =
    ap (λ s. paths.join dir (s +++ ".sock"))
      (sym (append_assoc (vm +++ "-") (a +++ "-") b)
        ∙ ap (λ s. s +++ b) (sym (append_assoc (vm +++ "-") a "-")))

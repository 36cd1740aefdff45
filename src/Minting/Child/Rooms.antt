-- ===== src/Minting/Child/Rooms.antt =====
-- A child of the service that runs in a private directory.
use krb5_token_service.Prelude.{Text}
use krb5_token_service.Errors.{Failure, os_error, timeout_expired}
use krb5_token_service.World.{Call, Files, Spawned, Outside}
use krb5_token_service.Exec.Keeps.{Keeps-raise, Keeps-gets, Keeps-bind, Keeps-lift, Fails}
use krb5_token_service.Exec.Triples.{Leads, Leads-catch}
use krb5_token_service.System.Rooms.Steps.{Leads-after, Leads-run_child}
use krb5_token_service.System.Rooms.{Visible, visible, Any, IsQuiet, IsQuiet-emit, Room, Done}
use krb5_token_service.Minting.Child.{run_subprocess, translate, read_ccache}
use krb5_token_service.Errors.{Result, ok, raised}

pub Fails-Any : {A : Type 0} (r : Result A) → Fails Any r
Fails-Any (ok a) = tt
Fails-Any (raised f) = tt

IsQuiet-translate :
    {A : Type 0} (call : Call) (binary context : Text) (f : Failure)
    → IsQuiet (translate {A = A} call binary context f)
unfolding translate
IsQuiet-translate call binary context (os_error why) =
    Keeps-bind _ _ (IsQuiet-emit _) (λ _. Keeps-raise _ tt)
IsQuiet-translate call binary context timeout_expired =
    Keeps-bind _ _ (IsQuiet-emit _) (λ _. Keeps-raise _ tt)
IsQuiet-translate call binary context _ = Keeps-raise _ tt

pub IsQuiet-read_ccache : (env : Outside) (dir name : Text) → IsQuiet (read_ccache env dir name)
unfolding read_ccache
IsQuiet-read_ccache env dir name =
    Keeps-bind _ _ (Keeps-gets _) (λ file. Keeps-lift _ (Fails-Any _))

pub Leads-run_subprocess :
    (env : Outside) (Is : Spawned → Type 0) (v : Visible) (dir : Text) (call : Call)
    (binary context : Text) (found : Files)
    → Is (record { call = call; found = found })
    → Leads visible
        (Room v v.spawned dir found)
        (run_subprocess env dir call binary context)
        (λ _. Done Is v dir)
        (Done Is v dir)
unfolding run_subprocess
Leads-run_subprocess env Is v dir call binary context found i =
    Leads-catch _ _ (Leads-run_child env Is v dir call found i)
      (λ f. Leads-after env Is v dir _ (IsQuiet-translate call binary context f))

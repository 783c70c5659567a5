-- ===== src/Main/Tests.antt =====
-- The process of a server that was told to stop, on the samples.
use hegel.Base.{◌≡◌, ◌⊎◌, refl, true, false, Option, none, some}
use hegel.Errors.{GoError, ok}
use hegel.Server.{
  State, initial, Run, returned, listening, waiting, here, next, cancel, take_done, shutdown_ok,
}
use hegel.Backend.Samples.{world}
use hegel.Api.Samples.{env}
use hegel.Api.Service.Samples.{lib, recovery, new_xff, behind_proxy, serving}
use hegel.Main.{main, Ends, serves}
use hegel.Main.Codes.{Failed, Succeeded, main-EndedWell}

abbrev stopped : State
stopped = record {
  cancelled = true;
  listener = listening;
  err_chan = none;
  closed = false;
  phase = returned none;
}

told_to_stop : Run initial stopped
unfolding initial
told_to_stop =
    next _ _ _
      (next _ _ _ (next _ _ _ (here initial) (cancel listening none false waiting))
        (take_done listening none false))
      (shutdown_ok true listening none false)

abbrev execute : Option GoError → Option GoError
execute r = r

ends :
    (root : Option GoError)
    → ok none ≡ ok root
    → Ends world env lib recovery new_xff behind_proxy (execute root)
ends (some e) h = cc
ends none h = serves _ stopped none serving told_to_stop refl

main-EndedWell_example :
    (Failed world env lib recovery new_xff behind_proxy execute (ok none)
      × ((main execute (ok none)).code ≡ 1))
    ⊎ (Succeeded world env lib recovery new_xff behind_proxy execute (ok none)
        × ((main execute (ok none)).code ≡ 0))
main-EndedWell_example =
    main-EndedWell world env lib recovery new_xff behind_proxy (Option GoError) execute (ok none)
      ends

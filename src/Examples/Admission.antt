-- ===== src/Examples/Admission.antt =====
-- The controllers of `Data` on a job.
use nacp.Common.{refl, none, some, [], arith}
use nacp.Admission.{admission_validators, apply_admission_controllers}
use nacp.Admission.Spec.{transform_all}
use nacp.Admission.Isolation.{Extends, admission_validators-Extends}
use nacp.Admission.Refines.{Admits, apply-Admits}
use nacp.Examples.Data.{
  multierror, flat, codec, faithful, transforms, policies, handler, mutators_lawful,
  validators_lawful, validators-IsPrivate, world,
}

apply-Admits_example :
    Admits policies none handler.validators (transform_all transforms none handler.mutators 7 []) (
      apply_admission_controllers multierror codec handler
        (some (record { job = some 0; context = none }))
        world)
apply-Admits_example =
    apply-Admits multierror codec flat faithful transforms policies handler none 0 7 world
      mutators_lawful validators_lawful validators-IsPrivate (omega arith) refl

admission_validators-Extends_example :
    Extends world.heap
      (admission_validators multierror codec handler
        (some (record { job = some 0; context = none }))
        world).1.heap
admission_validators-Extends_example =
    admission_validators-Extends multierror codec handler (record { job = some 0; context = none })
      world validators-IsPrivate

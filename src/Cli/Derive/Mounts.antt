-- ===== src/Cli/Derive/Mounts.antt =====
-- runner.go: the volumes, the mounts and the name of a derived Job.
use mathlib.Core.List.{map-append}
use borgbase_operator.Base.{
  Text, text_eq, keep, not, List, [], ◌∷◌, ◌++◌, map, ◌≡◌, ◌∙◌, refl, sym, ap, arith,
}
use borgbase_operator.Kube.Pod.{Volume, VolumeMount}
use borgbase_operator.Cli.Derive.{
  Options, Parts, ephemeral, writable_volume, writable_mount, choose_cache, choose_data,
  choose_database, adjust, data_volume, db_volume,
}

abbrev pub volume_names : List Volume → List Text
volume_names vs = map (λ v. v.name) vs

abbrev pub mount_names : List VolumeMount → List Text
mount_names ms = map (λ m. m.name) ms

abbrev without : Text → List Text → List Text
without name = keep (λ n. not (text_eq n name))

volume_names-without :
    (vs : List Volume) (name : Text)
    → volume_names (keep (λ v. not (text_eq v.name name)) vs) ≡ without name (volume_names vs)
volume_names-without [] name = refl
volume_names-without (v ∷ vs) name = ground (arith, volume_names-without vs name)

mount_names-without :
    (ms : List VolumeMount) (name : Text)
    → mount_names (keep (λ m. not (text_eq m.name name)) ms) ≡ without name (mount_names ms)
mount_names-without [] name = refl
mount_names-without (m ∷ ms) name = ground (arith, mount_names-without ms name)

volume_names-ephemeral : (vs : List Volume) → volume_names (map ephemeral vs) ≡ volume_names vs
volume_names-ephemeral [] = refl
volume_names-ephemeral (v ∷ vs) = ground (arith, volume_names-ephemeral vs)

volume_names-writable : (vs : List Volume) → volume_names (map writable_volume vs) ≡ volume_names vs
volume_names-writable [] = refl
volume_names-writable (v ∷ vs) = ground (arith, volume_names-writable vs)

mount_names-writable :
    (ms : List VolumeMount) → mount_names (map writable_mount ms) ≡ mount_names ms
mount_names-writable [] = refl
mount_names-writable (m ∷ ms) = ground (arith, mount_names-writable ms)

-- A container mounts exactly the volumes of its pod.
pub record IsMatched (p : Parts) : Type 0 where
  pub names : mount_names p.mounts ≡ volume_names p.volumes

choose_cache-IsMatched :
    (opts : Options) (p : Parts) → IsMatched p → IsMatched (choose_cache opts p)
choose_cache-IsMatched opts p h =
    let same = volume_names-ephemeral p.volumes in record { names = ground (arith, same, h.names) }

choose_data-IsMatched : (opts : Options) (p : Parts) → IsMatched p → IsMatched (choose_data opts p)
choose_data-IsMatched opts p h = record {
  names = ground (
    arith,
    h.names,
    volume_names-writable p.volumes,
    mount_names-writable p.mounts,
    volume_names-without p.volumes data_volume,
    mount_names-without p.mounts data_volume,
  );
}

choose_database-IsMatched :
    (opts : Options) (p : Parts) → IsMatched p → IsMatched (choose_database opts p)
choose_database-IsMatched opts p h = record {
  names = ground (
    arith,
    h.names,
    volume_names-without p.volumes db_volume,
    mount_names-without p.mounts db_volume,
  );
}

pub adjust-IsMatched :
    (opts : Options) (p : Parts)
    → IsMatched p
    → mount_names opts.extra_mounts ≡ volume_names opts.extra_volumes
    → IsMatched (adjust opts p)
unfolding adjust
adjust-IsMatched opts p h extra =
    let q = choose_database opts (choose_data opts (choose_cache opts p)) in
    let m : IsMatched q =
      choose_database-IsMatched opts _
        (choose_data-IsMatched opts _ (choose_cache-IsMatched opts p h)) in
    record {
      names =
          map-append (λ (x : VolumeMount). x.name) q.mounts opts.extra_mounts
          ∙ (ap (λ (l : List Text). l ++ mount_names opts.extra_mounts) m.names
              ∙ (ap (λ (l : List Text). volume_names q.volumes ++ l) extra
                  ∙ sym (map-append (λ (x : Volume). x.name) q.volumes opts.extra_volumes)));
    }

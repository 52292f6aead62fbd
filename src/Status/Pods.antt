-- ===== src/Status/Pods.antt =====
-- The status against the pods.
use inplaceu.Base.{
  ℕ, suc, ◌+◌, ◌<◌, ◌≡◌, ◌↔◌, refl, ap, ◌∙◌, ◌≤◌, Bool, true, false, ◌&&◌, some, List, [], ◌∷◌,
  Text, text_eq, ==_iff, arith, if◌then◌else◌, length, count, Bool-cases, inl, inr,
}
use inplaceu.Base.Int.{ℤ, pos, eqb_ℤ, eqb_ℤ_iff, inc32, inc32_pos, ◌≤ℤ◌, ltb_ℤ→le, le→ltb_ℤ}
use inplaceu.Api.{Pod, Inplaceu, InplaceuStatus}
use inplaceu.Utils.Hash.{equal_to_revision_hash}
use inplaceu.Utils.Pods.{is_running, is_pod_available}
use inplaceu.Status.{count_pod, count_status, inc_if, calculate_status, inconsistent_status}

-- The new generation is no later than the old one, and the four counts and the two revisions are the
-- old ones.
pub record Agrees (old new : InplaceuStatus) : Type 0 where
  pub no_later : new.observed_generation ≤ℤ old.observed_generation
  pub replicas : new.replicas ≡ old.replicas
  pub ready_replicas : new.ready_replicas ≡ old.ready_replicas
  pub available_replicas : new.available_replicas ≡ old.available_replicas
  pub updated_replicas : new.updated_replicas ≡ old.updated_replicas
  pub update_revision : new.update_revision ≡ old.update_revision
  pub current_revision : new.current_revision ≡ old.current_revision

-- The status is not written exactly where its generation is no later than the old one's and the
-- four counts and the two revisions are the old ones.
pub inconsistent_status_iff :
    (old new : InplaceuStatus)
    → (inconsistent_status old new ≡ false) ↔ (
        (new.observed_generation ≤ℤ old.observed_generation)
        × (new.replicas ≡ old.replicas)
        × (new.ready_replicas ≡ old.ready_replicas)
        × (new.available_replicas ≡ old.available_replicas)
        × (new.updated_replicas ≡ old.updated_replicas)
        × (new.update_revision ≡ old.update_revision)
        × (new.current_revision ≡ old.current_revision))
unfolding inconsistent_status
inconsistent_status_iff old new = ground (
  arith,
  ltb_ℤ→le old.observed_generation new.observed_generation,
  le→ltb_ℤ old.observed_generation new.observed_generation,
  eqb_ℤ_iff new.replicas old.replicas,
  eqb_ℤ_iff new.ready_replicas old.ready_replicas,
  eqb_ℤ_iff new.available_replicas old.available_replicas,
  eqb_ℤ_iff new.updated_replicas old.updated_replicas,
  ==_iff new.update_revision old.update_revision,
  ==_iff new.current_revision old.current_revision,
)

pub inconsistent_status-Agrees :
    (old new : InplaceuStatus) → inconsistent_status old new ≡ false → Agrees old new
inconsistent_status-Agrees old new h =
    let (generation, replicas, ready, available, updated, update, current) =
      (inconsistent_status_iff old new).0 h in
    record {
      no_later = generation;
      replicas = replicas;
      ready_replicas = ready;
      available_replicas = available;
      updated_replicas = updated;
      update_revision = update;
      current_revision = current;
    }

pub inconsistent_status-differs :
    (old new : InplaceuStatus) → inconsistent_status old new ≡ true → ¬ Agrees old new
inconsistent_status-differs old new h agrees =
    let same = (inconsistent_status_iff old new).1 (
      agrees.no_later, agrees.replicas, agrees.ready_replicas, agrees.available_replicas,
      agrees.updated_replicas, agrees.update_revision, agrees.current_revision,
    ) in
    cc

module _ (available : Pod → ℤ → Bool) (iu : Inplaceu) where
  abbrev updated_to : Text → Pod → Bool
  updated_to rev p = equal_to_revision_hash p.labels rev

  abbrev serves : Pod → Bool
  serves p = is_pod_available available p iu.spec.min_ready_seconds

  -- The counts of a status.
  pub record Counted (pods : List Pod) (n r a u : ℕ) (s s' : InplaceuStatus) : Type 0 where
    pub all_pods : s'.replicas ≡ pos (n + length pods)
    pub ready : s'.ready_replicas ≡ pos (r + count is_running pods)
    pub available_pods : s'.available_replicas ≡ pos (a + count serves pods)
    pub updated : s'.updated_replicas ≡ pos (u + count (updated_to s.update_revision) pods)
    pub update_revision_kept : s'.update_revision ≡ s.update_revision
    pub current_revision_kept : s'.current_revision ≡ s.current_revision

  inc_if_pos :
      (b : Bool) (n : ℕ)
      → suc n < 2147483648
      → inc_if available b (pos n) ≡ pos ((if b then 1 else 0) + n)
  inc_if_pos true n h = inc32_pos n h ∙ ap pos (omega arith)
  inc_if_pos false n h = ap pos (omega arith)

  shift : (b : Bool) (n c : ℕ) → (if b then 1 else 0) + n + c ≡ n + ((if b then 1 else 0) + c)
  shift true n c = omega arith
  shift false n c = omega arith

  count_status-Counted :
      (pods : List Pod) (n r a u : ℕ) (s : InplaceuStatus)
      → s.replicas ≡ pos n
      → s.ready_replicas ≡ pos r
      → s.available_replicas ≡ pos a
      → s.updated_replicas ≡ pos u
      → r ≤ n
      → a ≤ n
      → u ≤ n
      → n + length pods < 2147483648
      → Counted pods n r a u s (count_status available iu pods s)
  unfolding count_status count_pod
  count_status-Counted [] n r a u s hn hr ha hu br ba bu b = record {
    all_pods = hn ∙ ap pos (omega arith);
    ready = hr ∙ ap pos (omega arith);
    available_pods = ha ∙ ap pos (omega arith);
    updated = hu ∙ ap pos (omega arith);
    update_revision_kept = refl;
    current_revision_kept = refl;
  }
  count_status-Counted (p ∷ pods) n r a u s hn hr ha hu br ba bu b =
      let up = updated_to s.update_revision p in
      let one : (t : Bool) (k : ℕ) (x : ℤ)
          → x ≡ pos k
          → k ≤ n
          → inc_if available t x ≡ pos ((if t then 1 else 0) + k) =
        λ t k x e h. ap (inc_if available t) e ∙ inc_if_pos t k (omega arith) in
      let le : (t : Bool) (k : ℕ) → k ≤ n → (if t then 1 else 0) + k ≤ suc n =
        λ t k h. ground arith in
      let c =
        count_status-Counted pods (suc n) ((if is_running p then 1 else 0) + r)
          ((if serves p then 1 else 0) + a) ((if up then 1 else 0) + u) (count_pod available iu p s)
          (ap inc32 hn ∙ inc32_pos n (omega arith)) (one (is_running p) r s.ready_replicas hr br)
          (one (serves p) a s.available_replicas ha ba) (one up u s.updated_replicas hu bu)
          (le (is_running p) r br) (le (serves p) a ba) (le up u bu) (omega arith) in
      record {
        all_pods = c.all_pods ∙ ap pos (omega arith);
        ready = c.ready ∙ ap pos (shift (is_running p) r _);
        available_pods = c.available_pods ∙ ap pos (shift (serves p) a _);
        updated = c.updated ∙ ap pos (shift up u _);
        update_revision_kept = c.update_revision_kept;
        current_revision_kept = c.current_revision_kept;
      }

  -- A status with the counts of the pods, whose current revision is the update revision exactly if
  -- all pods are updated and are as many as the spec's replicas, and is the old one otherwise.
  pub record StatusOf (pods : List Pod) (replicas : ℤ) (s s' : InplaceuStatus) : Type 0 where
    pub replicas_count : s'.replicas ≡ pos (length pods)
    pub ready_count : s'.ready_replicas ≡ pos (count is_running pods)
    pub available_count : s'.available_replicas ≡ pos (count serves pods)
    pub updated_count : s'.updated_replicas ≡ pos (count (updated_to s.update_revision) pods)
    pub update_revision : s'.update_revision ≡ s.update_revision
    pub current_revision : s'.current_revision ≡ (
        if eqb_ℤ s'.updated_replicas s'.replicas && eqb_ℤ s'.replicas replicas
        then s.update_revision
        else s.current_revision)

  -- With the replicas set, fewer than 2³¹ pods and all four counts of the new status at 0, the
  -- computed status counts all pods as replicas, the running ones as ready, the available ones and those
  -- at the update revision; its current revision is the update revision exactly if all pods are updated
  -- and as many as the spec's replicas, and the old one otherwise.
  pub calculate_status-StatusOf :
      (pods : List Pod) (replicas : ℤ) (s : InplaceuStatus)
      → iu.spec.replicas ≡ some replicas
      → s.replicas ≡ pos 0
      → s.ready_replicas ≡ pos 0
      → s.available_replicas ≡ pos 0
      → s.updated_replicas ≡ pos 0
      → length pods < 2147483648
      → (s' : InplaceuStatus) × (calculate_status available iu s pods ≡ some s')
        × StatusOf pods replicas s s'
  unfolding calculate_status
  calculate_status-StatusOf pods replicas s h hn hr ha hu b =
      let t = count_status available iu pods s in
      let c =
        count_status-Counted pods 0 0 0 0 s hn hr ha hu (omega arith) (omega arith) (omega arith)
          (omega arith) in
      let t' : InplaceuStatus =
        if eqb_ℤ t.updated_replicas t.replicas && eqb_ℤ t.replicas replicas
        then record t { current_revision = t.update_revision }
        else t in
      let result : calculate_status available iu s pods ≡ some t' = rw h (ground arith) in
      let plain : StatusOf pods replicas s t' =
        elim (Bool-cases (eqb_ℤ t.updated_replicas t.replicas && eqb_ℤ t.replicas replicas)) [
          | inl all ↦ rw all (record {
            replicas_count = c.all_pods ∙ ap pos (omega arith);
            ready_count = c.ready ∙ ap pos (omega arith);
            available_count = c.available_pods ∙ ap pos (omega arith);
            updated_count = c.updated ∙ ap pos (omega arith);
            update_revision = c.update_revision_kept;
            current_revision = rw all c.update_revision_kept;
          })
          | inr some_old ↦ rw some_old (record {
            replicas_count = c.all_pods ∙ ap pos (omega arith);
            ready_count = c.ready ∙ ap pos (omega arith);
            available_count = c.available_pods ∙ ap pos (omega arith);
            updated_count = c.updated ∙ ap pos (omega arith);
            update_revision = c.update_revision_kept;
            current_revision = rw some_old c.current_revision_kept;
          })
        ] in
      (t', result, plain)

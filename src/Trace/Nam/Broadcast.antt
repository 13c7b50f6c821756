-- ===== src/Trace/Nam/Broadcast.antt =====
-- `calculate_broadcast_parameters` of Ns2.35Files/cmu-trace.cc, and the range of a broadcast.
use ant_aodv.Base.{pos, ◌&&◌, if◌then◌else◌}
use ant_aodv.Double.{Double, ◌⊗◌, ◌⊘◌}
use ant_aodv.Trace.State.{NamWorld, Nam}

module _ {W P : Type 0} ⦃d : Double W⦄ (n : NamWorld W P) where
  -- `3.14159265359`
  abbrev pi : W
  pi = d.ratio 314159265359 100000000000

  -- The radius in the model of reflection from the ground, or in free space below the distance where
  -- the two cross.
  unfoldable pub broadcast_radius : W
  broadcast_radius =
      let p_t = n.tcl_number "Phy/WirelessPhy set Pt_" in
      let p_r = n.tcl_number "Phy/WirelessPhy set RXThresh_" in
      let l = n.tcl_number "Phy/WirelessPhy set L_" in
      let g_t = n.tcl_number "Antenna/OmniAntenna set Gt_" in
      let g_r = n.tcl_number "Antenna/OmniAntenna set Gr_" in
      let h = n.tcl_number "Antenna/OmniAntenna set Z_" in
      let bradius = n.pow (p_t ⊗ g_r ⊗ g_t ⊗ n.pow h (d.ratio 4 1) ⊘ (p_r ⊗ l)) (d.ratio 25 100) in
      let lambda = d.ratio 300000000 1 ⊘ n.tcl_number "Phy/WirelessPhy set freq_" in
      let crossover_dist = (d.of_int (pos 4) ⊗ pi ⊗ h ⊗ h) ⊘ lambda in
      if d.lt bradius crossover_dist
      then n.pow (p_t ⊗ g_r ⊗ g_t ⊗ n.pow lambda (d.ratio 2 1) ⊘ (p_r ⊗ l)) (d.ratio 5 10)
        ⊘ (d.of_int (pos 4) ⊗ pi)
      else bradius

  unfoldable pub calculate_broadcast_parameters : Nam W → Nam W
  unfolding broadcast_radius
  calculate_broadcast_parameters m = record m {
    bradius = broadcast_radius;
    radius_scaling_factor = n.tcl_number "CMUTrace set radius_scaling_factor_";
    duration_scaling_factor = n.tcl_number "CMUTrace set duration_scaling_factor_";
  }

  -- `radius` and `duration`
  unfoldable pub broadcast_range : Nam W → W × W
  broadcast_range m =
      let duration = m.bradius ⊘ d.ratio 299792458 1 ⊗ m.duration_scaling_factor in
      let least = d.ratio 1 1000000000 in
      (
        m.bradius ⊗ m.radius_scaling_factor,
        if n.nam_status && d.lt duration least then least else duration,
      )

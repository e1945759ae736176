-- ===== src/Geonet/Geometry.antt =====
-- The geometry of src/flexstack/geonet/router.py: distances, the function F of an area, and its size.
-- Floats and trigonometry are parameters; a division by an integer that is 0 raises.
use flex_stack.Prelude.{
  ℕ, ◌^◌, ◌==◌, Result, ok, err, value_error, zero_division_error, ◌>>=◌, if◌then◌else◌,
}
use flex_stack.Prelude.Int.{ℤ, negsuc}
use flex_stack.Floats.{Floats, Trig}
use flex_stack.Geonet.Request.{
  Area, Hst, geoanycast_circle, geoanycast_rect, geoanycast_elip, geobroadcast_circle,
  geobroadcast_rect, geobroadcast_elip,
}

abbrev pub earth_radius : ℕ
earth_radius = 6371000

module _ (fl : Floats) (trig : Trig fl) where
  open fl use {Float, of_int, fadd, fsub, fmul, fdiv, flt}
  open trig use {of_ℤ, pi, radians, sin, cos, square, sqrt}

  unfoldable pub calculate_distance : Float × Float → Float × Float → Float × Float
  calculate_distance (lat1_degrees, lon1_degrees) (lat2_degrees, lon2_degrees) =
      let lat1 = radians lat1_degrees in
      let lon1 = radians lon1_degrees in
      let lat2 = radians lat2_degrees in
      let lon2 = radians lon2_degrees in
      let dlat = fsub lat2 lat1 in
      let dlon = fsub lon2 lon1 in
      let y_distance =
        fmul (fmul (of_int earth_radius) dlon) (cos (fdiv (fadd lat1 lat2) (of_int 2))) in
      let x_distance = fmul (fmul (of_ℤ (negsuc 0)) (of_int earth_radius)) dlat in
      (x_distance, y_distance)

  unfoldable pub transform_distance_angle : Float × Float → ℤ → Float × Float
  transform_distance_angle (x, y) angle =
      let n_angle = radians (of_ℤ angle) in (fmul (cos n_angle) x, fmul (sin n_angle) y)

  -- A coordinate in tenths of microdegrees, in degrees.
  abbrev pub degrees : ℤ → Float
  degrees n = fdiv (of_ℤ n) (of_int 10000000)

  -- `x / n`
  abbrev pub over : Float → ℕ → Result Float
  over x n = if n == 0 then err zero_division_error else ok (fdiv x (of_int n))

  -- `min(x, y)`
  abbrev pub smaller : Float → Float → Float
  smaller x y = if flt y x then y else x

  abbrev pub circle_f : Float → Float → Area → Result Float
  circle_f x y area = do
    u ← over x area.a
    v ← over y area.a
    ok (fsub (fsub (of_int 1) (square u)) (square v))

  abbrev pub elip_f : Float → Float → Area → Result Float
  elip_f x y area = do
    u ← over x area.a
    v ← over y area.b
    ok (fsub (fsub (of_int 1) (square u)) (square v))

  abbrev pub rect_f : Float → Float → Area → Result Float
  rect_f x y area = do
    u ← over x area.a
    v ← over y area.b
    ok (smaller (fsub (of_int 1) (square u)) (fsub (of_int 1) (square v)))

  abbrev pub by_shape : Hst → Float × Float → Area → Result Float
  by_shape geobroadcast_circle (x, y) area = circle_f x y area
  by_shape geoanycast_circle (x, y) area = circle_f x y area
  by_shape geobroadcast_elip (x, y) area = elip_f x y area
  by_shape geoanycast_elip (x, y) area = elip_f x y area
  by_shape geobroadcast_rect (x, y) area = rect_f x y area
  by_shape geoanycast_rect (x, y) area = rect_f x y area
  by_shape _ d area = err value_error

  unfoldable pub gn_geometric_function_f : Hst → Area → ℤ → ℤ → Result Float
  unfolding calculate_distance
  gn_geometric_function_f area_type area lat lon =
      by_shape area_type
        (calculate_distance (degrees area.latitude, degrees area.longitude)
          (degrees lat, degrees lon))
        area

  -- `_compute_area_size_m2`
  unfoldable pub compute_area_size_m2 : Hst → Area → Float
  compute_area_size_m2 geobroadcast_circle area = fmul pi (of_int (area.a ^ 2))
  compute_area_size_m2 geoanycast_circle area = fmul pi (of_int (area.a ^ 2))
  compute_area_size_m2 geobroadcast_elip area = fmul (fmul pi (of_int area.a)) (of_int area.b)
  compute_area_size_m2 geoanycast_elip area = fmul (fmul pi (of_int area.a)) (of_int area.b)
  compute_area_size_m2 _ area = fmul (fmul (of_int 4) (of_int area.a)) (of_int area.b)

  -- `_distance_m`
  unfoldable pub distance_m : ℤ → ℤ → ℤ → ℤ → Float
  unfolding calculate_distance
  distance_m lat1 lon1 lat2 lon2 =
      let (dx, dy) = calculate_distance (degrees lat1, degrees lon1) (degrees lat2, degrees lon2) in
      sqrt (fadd (fmul dx dx) (fmul dy dy))

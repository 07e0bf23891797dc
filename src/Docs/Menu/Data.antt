-- ===== src/Docs/Menu/Data.antt =====
-- The menu of html/menudata.js.
use database_system_swe.Docs.Text.{text}
use database_system_swe.Docs.Menu.{Menu, Items, leaf, children, nil, item}

abbrev all_items : Items
all_items = item (text "a") (text "functions.html#index_a") leaf (
    item (text "b") (text "functions_b.html#index_b") leaf (
      item (text "c") (text "functions_c.html#index_c") leaf (
        item (text "d") (text "functions_d.html#index_d") leaf (
          item (text "e") (text "functions_e.html#index_e") leaf (
            item (text "f") (text "functions_f.html#index_f") leaf (
              item (text "g") (text "functions_g.html#index_g") leaf (
                item (text "h") (text "functions_h.html#index_h") leaf (
                  item (text "i") (text "functions_i.html#index_i") leaf (
                    item (text "j") (text "functions_j.html#index_j") leaf (
                      item (text "l") (text "functions_l.html#index_l") leaf (
                        item (text "m") (text "functions_m.html#index_m") leaf (
                          item (text "n") (text "functions_n.html#index_n") leaf (
                            item (text "o") (text "functions_o.html#index_o") leaf (
                              item (text "p") (text "functions_p.html#index_p") leaf (
                                item (text "q") (text "functions_q.html#index_q") leaf (
                                  item (text "r") (text "functions_r.html#index_r") leaf (
                                    item (text "s") (text "functions_s.html#index_s") leaf (
                                      item (text "t") (text "functions_t.html#index_t") leaf (
                                        item (text "u") (text "functions_u.html#index_u") leaf (
                                          item (text "v") (text "functions_v.html#index_v") leaf (
                                            item (text "w") (text "functions_w.html#index_w") leaf (
                                              item (text "x") (text "functions_x.html#index_x") leaf
                                                nil))))))))))))))))))))))

abbrev functions_items : Items
functions_items = item (text "a") (text "functions_func.html#index_a") leaf (
    item (text "b") (text "functions_func_b.html#index_b") leaf (
      item (text "c") (text "functions_func_c.html#index_c") leaf (
        item (text "d") (text "functions_func_d.html#index_d") leaf (
          item (text "e") (text "functions_func_e.html#index_e") leaf (
            item (text "f") (text "functions_func_f.html#index_f") leaf (
              item (text "g") (text "functions_func_g.html#index_g") leaf (
                item (text "h") (text "functions_func_h.html#index_h") leaf (
                  item (text "i") (text "functions_func_i.html#index_i") leaf (
                    item (text "j") (text "functions_func_j.html#index_j") leaf (
                      item (text "l") (text "functions_func_l.html#index_l") leaf (
                        item (text "m") (text "functions_func_m.html#index_m") leaf (
                          item (text "n") (text "functions_func_n.html#index_n") leaf (
                            item (text "o") (text "functions_func_o.html#index_o") leaf (
                              item (text "p") (text "functions_func_p.html#index_p") leaf (
                                item (text "q") (text "functions_func_q.html#index_q") leaf (
                                  item (text "r") (text "functions_func_r.html#index_r") leaf (
                                    item (text "s") (text "functions_func_s.html#index_s") leaf (
                                      item (text "t") (text "functions_func_t.html#index_t") leaf (
                                        item (text "u") (text "functions_func_u.html#index_u") leaf
                                          (item (text "v") (text "functions_func_v.html#index_v")
                                            leaf
                                            (item (text "w") (text "functions_func_w.html#index_w")
                                              leaf
                                              (item (text "x")
                                                (text "functions_func_x.html#index_x") leaf
                                                nil))))))))))))))))))))))

abbrev class_members_items : Items
class_members_items =
    item (text "All") (text "functions.html") (children all_items)
      (item (text "Functions") (text "functions_func.html") (children functions_items) nil)

abbrev classes_items : Items
classes_items = item (text "Class List") (text "annotated.html") leaf (
    item (text "Class Index") (text "classes.html") leaf (
      item (text "Class Hierarchy") (text "inherits.html") leaf
        (item (text "Class Members") (text "functions.html") (children class_members_items) nil)))

abbrev top_items : Items
top_items =
    item (text "Main Page") (text "index.html") leaf
      (item (text "Classes") (text "annotated.html") (children classes_items) nil)

abbrev pub menudata : Menu
menudata = children top_items
